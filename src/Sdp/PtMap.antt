-- ===== src/Sdp/PtMap.antt =====
-- `std::map<const int, int>` as SdpInfo uses it for `inOutPTMap` and `outInPTMap`: an association
-- list with one entry for each key. `m[k]` inserts a 0 where `k` is missing.
use erizo.Base.{ℕ, Bool, false, List, [], ◌∷◌, ◌≡◌, refl, ◌||◌, arith, ◌==◌, if◌then◌else◌}

abbrev pub PtMap : Type 0
PtMap = List (ℕ × ℕ)

-- `m.count(k) > 0`
unfoldable pub contains : PtMap → ℕ → Bool
contains [] k = false
contains ((j, v) ∷ m) k = j == k || contains m k

-- The value of `m[k]`.
unfoldable pub at : PtMap → ℕ → ℕ
at [] k = 0
at ((j, v) ∷ m) k = if j == k then v else at m k

-- `m[k] = v`
unfoldable pub put : PtMap → ℕ → ℕ → PtMap
put [] k v = (k, v) ∷ []
put ((j, w) ∷ m) k v = if j == k then (j, v) ∷ m else (j, w) ∷ put m k v

-- What reading `m[k]` leaves behind.
unfoldable pub touch : PtMap → ℕ → PtMap
touch [] k = (k, 0) ∷ []
touch ((j, w) ∷ m) k = if j == k then (j, w) ∷ m else (j, w) ∷ touch m k

pub at-put : (m : PtMap) (k j v : ℕ) → at (put m k v) j ≡ (if k == j then v else at m j)
unfolding at put
at-put [] k j v = refl
at-put ((i, w) ∷ m) k j v = ground (arith, at-put m k j v)

pub contains-put : (m : PtMap) (k j v : ℕ) → contains (put m k v) j ≡ (k == j || contains m j)
unfolding contains put
contains-put [] k j v = refl
contains-put ((i, w) ∷ m) k j v = ground (arith, contains-put m k j v)

-- Reading changes no value that is read later.
pub at-touch : (m : PtMap) (k j : ℕ) → at (touch m k) j ≡ at m j
unfolding at touch
at-touch [] k j = ground arith
at-touch ((i, w) ∷ m) k j = ground (arith, at-touch m k j)

-- But it adds the key.
pub contains-touch : (m : PtMap) (k j : ℕ) → contains (touch m k) j ≡ (k == j || contains m j)
unfolding contains touch
contains-touch [] k j = refl
contains-touch ((i, w) ∷ m) k j = ground (arith, contains-touch m k j)
