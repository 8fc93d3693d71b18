-- ===== src/Tests/LockRuns.antt =====
-- Two threads that lock.
use erizo.Base.{
  ℕ, ◌≡◌, refl, ◌≢◌, true, false, List, [], ◌∷◌, Option, none, some, if◌then◌else◌, ◌==◌, arith,
  Bool-cases, inl, inr, ap, ==_iff,
}
use erizo.Dtls.Locks.{
  MutexLibrary, Locks, LockCall, no_locks, init_locks, close_locks, run_locks, done, waits,
}
use erizo.Dtls.Locks.Holders.{Laws, map_outcome, run_holders, all_free, holders, run_locks-holders}

abbrev lock_owner : Option ℕ → ℕ → Option (Option ℕ)
lock_owner none t = some (some t)
lock_owner (some u) t = none

abbrev unlock_owner : Option ℕ → ℕ → Option (Option ℕ)
unlock_owner none t = none
unlock_owner (some u) t = if u == t then some none else none

-- A mutex is the thread that holds it.
abbrev owners : MutexLibrary (Option ℕ)
owners = record { new_mutex = none; lock = lock_owner; unlock = unlock_owner }

abbrev owner_of : Option ℕ → Option ℕ
owner_of m = m

unlock_own_lem :
    (m : Option ℕ) (t : ℕ)
    → m ≡ some t
    → (m1 : Option ℕ) × (unlock_owner m t ≡ some m1) × (m1 ≡ none)
unlock_own_lem m t e = (none, rw e (ground arith), refl)

unlock_other_lem : (m : Option ℕ) (t : ℕ) → m ≢ some t → unlock_owner m t ≡ none
unlock_other_lem none t h = refl
unlock_other_lem (some u) t h = elim (Bool-cases (u == t)) [
  | inl q ↦ absurd (h (ap some ((==_iff u t).0 q)))
  | inr q ↦ rw q refl
]

owners-Laws : Laws owners owner_of
owners-Laws = record {
  new_free = refl;
  lock_free = λ m t e. (some t, rw e refl, refl);
  lock_held = λ m t u e. rw e refl;
  unlock_own = unlock_own_lem;
  unlock_other = unlock_other_lem;
}

abbrev locked_by : ℕ → LockCall
locked_by t = record { is_lock = true; number = 1; thread = t }

abbrev unlocked_by : ℕ → LockCall
unlocked_by t = record { is_lock = false; number = 1; thread = t }

abbrev in_turn : List LockCall
in_turn = locked_by 7 ∷ unlocked_by 7 ∷ locked_by 8 ∷ []

second_holds : run_holders (all_free 2) in_turn ≡ done (none ∷ some 8 ∷ [])
unfolding run_holders
second_holds = refl

second_waits : run_holders (all_free 2) (locked_by 7 ∷ locked_by 8 ∷ []) ≡ waits
unfolding run_holders
second_waits = refl

run_locks-holders_example :
    (run_locks owners no_locks (unlocked_by 7 ∷ []) ≡ done no_locks)
    × (map_outcome (holders owner_of) (run_locks owners (init_locks owners 2) in_turn)
        ≡ run_holders (all_free 2) in_turn)
    × ((s : Locks (Option ℕ))
        → run_locks owners (close_locks s) (locked_by 7 ∷ []) ≡ done (close_locks s))
run_locks-holders_example =
    run_locks-holders owners owner_of owners-Laws (unlocked_by 7 ∷ []) in_turn (locked_by 7 ∷ []) 2
