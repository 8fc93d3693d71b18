-- ===== src/OneToMany/Subscribers.antt =====
-- OneToManyProcessor.cpp: the map of subscribers.
use erizo.Base.{
  ℕ, ◌≡◌, ◌↔◌, refl, true, false, [], ◌∷◌, none, some, Bytes, arith, equal, if◌then◌else◌,
}
use erizo.OneToMany.Processor.{less, Subscribers, find, insert, erase}

pub equal_iff : (a b : Bytes) → (equal a b ≡ true) ↔ (a ≡ b)
equal_iff [] [] = ground arith
equal_iff (x ∷ a) (y ∷ b) = ground (arith, equal_iff a b)
equal_iff [] (y ∷ b) = ground arith
equal_iff (x ∷ a) [] = ground arith

less_irrefl : (a : Bytes) → less a a ≡ false
unfolding less
less_irrefl [] = refl
less_irrefl (x ∷ a) = ground (arith, less_irrefl a)

less_trans : (a b c : Bytes) → less a b ≡ true → less b c ≡ true → less a c ≡ true
unfolding less
less_trans [] [] c h k = cc
less_trans [] (y ∷ b) [] h k = cc
less_trans [] (y ∷ b) (z ∷ c) h k = refl
less_trans (x ∷ a) [] c h k = cc
less_trans (x ∷ a) (y ∷ b) [] h k = cc
less_trans (x ∷ a) (y ∷ b) (z ∷ c) h k = ground (arith, less_trans a b c)

less_total : (a b : Bytes) → equal a b ≡ false → less a b ≡ false → less b a ≡ true
unfolding less
less_total [] [] e h = cc
less_total [] (y ∷ b) e h = cc
less_total (x ∷ a) [] e h = refl
less_total (x ∷ a) (y ∷ b) e h = ground (arith, less_total a b)

-- Every key of the map is above `k`.
abbrev Above : Bytes → Subscribers → Type 0
Above k [] = Unit {0}
Above k ((j, s) ∷ m) = (less k j ≡ true) × Above k m

-- The keys are in strictly rising order, so no key stands twice.
abbrev pub IsOrdered : Subscribers → Type 0
IsOrdered [] = Unit {0}
IsOrdered ((k, s) ∷ m) = Above k m × IsOrdered m

Above-less : (j k : Bytes) (m : Subscribers) → less j k ≡ true → Above k m → Above j m
Above-less j k [] h a = tt
Above-less j k ((i, s) ∷ m) h a = (less_trans j k i h a.0, Above-less j k m h a.1)

Above-insert :
    (j k : Bytes) (s : ℕ) (m : Subscribers) → less j k ≡ true → Above j m → Above j (insert m k s)
unfolding insert
Above-insert j k s [] h a = (h, tt)
Above-insert j k s ((i, t) ∷ m) h a = ground (arith, Above-insert j k s m h a.1)

pub insert-IsOrdered :
    (m : Subscribers) (k : Bytes) (s : ℕ) → IsOrdered m → IsOrdered (insert m k s)
unfolding insert
insert-IsOrdered [] k s o = (tt, tt)
insert-IsOrdered ((j, t) ∷ m) k s o = ground (
  arith,
  insert-IsOrdered m k s o.1,
  Above-insert j k s m,
  Above-less k j m,
  less_total k j,
  less_total j k,
  equal_iff j k,
  equal_iff k j,
)

Above-erase : (j k : Bytes) (m : Subscribers) → Above j m → Above j (erase m k)
unfolding erase
Above-erase j k [] a = tt
Above-erase j k ((i, t) ∷ m) a = ground (arith, Above-erase j k m a.1)

pub erase-IsOrdered : (m : Subscribers) (k : Bytes) → IsOrdered m → IsOrdered (erase m k)
unfolding erase
erase-IsOrdered [] k o = tt
erase-IsOrdered ((j, t) ∷ m) k o = ground (arith, erase-IsOrdered m k o.1, Above-erase j k m o.0)

find-Above : (k : Bytes) (m : Subscribers) → Above k m → find m k ≡ none
unfolding find
find-Above k [] a = refl
find-Above k ((j, s) ∷ m) a = ground (arith, find-Above k m a.1, equal_iff j k, less_irrefl k)

-- The subscriber that joined under a name is found under it, and the others as before.
pub find-insert :
    (m : Subscribers) (k j : Bytes) (s : ℕ)
    → find (insert m k s) j ≡ (if equal k j then some s else find m j)
unfolding find insert
find-insert [] k j s = refl
find-insert ((i, t) ∷ m) k j s =
    ground (arith, equal_iff i k, equal_iff i j, equal_iff k j, find-insert m k j s)

-- In an ordered map, a name that was erased is not found, and the others are found as before.
pub find-erase :
    (m : Subscribers) (k j : Bytes)
    → IsOrdered m
    → find (erase m k) j ≡ (if equal k j then none else find m j)
unfolding find erase
find-erase [] k j o = ground arith
find-erase ((i, t) ∷ m) k j o =
    ground
      (arith, equal_iff i k, equal_iff i j, equal_iff k j, find-erase m k j o.1, find-Above i m o.0)
