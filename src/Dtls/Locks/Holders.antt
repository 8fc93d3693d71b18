-- ===== src/Dtls/Locks/Holders.antt =====
-- OpenSSLInit.cpp: the table of mutexes as the list of the threads that hold them.
use erizo.Base.{
  ℕ, zero, suc, Option-cases, Bool-cases, ==_iff, inl, inr, ◌≡◌, refl, sym, ap, ◌∙◌, ◌≢◌, Bool,
  true, false, List, [], ◌∷◌, Option, none, some, get_elem?, set, map, if◌then◌else◌, ◌==◌, arith,
}
use erizo.Dtls.Locks.{
  Outcome, done, waits, undefined, after, MutexLibrary, Locks, no_locks, LockCall, make_mutexes,
  init_locks, lock_function, locking_function, run_locks, close_locks,
}

-- What is documented of a mutex and the thread that holds it.
pub record Laws {M : Type 0} (lib : MutexLibrary M) (owner : M → Option ℕ) : Type 0 where
  pub new_free : owner lib.new_mutex ≡ none
  pub lock_free :
      (m : M) (t : ℕ) → owner m ≡ none → (m1 : M) × (lib.lock m t ≡ some m1) × (owner m1 ≡ some t)
  pub lock_held : (m : M) (t u : ℕ) → owner m ≡ some u → lib.lock m t ≡ none
  pub unlock_own :
      (m : M) (t : ℕ) → owner m ≡ some t → (m1 : M) × (lib.unlock m t ≡ some m1) × (owner m1 ≡ none)
  pub unlock_other : (m : M) (t : ℕ) → owner m ≢ some t → lib.unlock m t ≡ none

abbrev pub map_outcome : {A B : Type 0} → (A → B) → Outcome A → Outcome B
map_outcome f (done a) = done (f a)
map_outcome f waits = waits
map_outcome f undefined = undefined

-- A call by a thread on a mutex that is free or held: a free mutex is locked, a held one is waited for,
-- and only its holder unlocks it.
abbrev pub holder_after : Option ℕ → Bool → ℕ → Outcome (Option ℕ)
holder_after none true t = done (some t)
holder_after none false t = undefined
holder_after (some u) true t = waits
holder_after (some u) false t = if u == t then done none else undefined

abbrev pub holders_after : List (Option ℕ) → LockCall → Outcome (List (Option ℕ))
holders_after h c = elim (get_elem? h c.number) [
  | none ↦ undefined
  | some o ↦ after (holder_after o c.is_lock c.thread) (λ o1. done (set h c.number o1))
]

unfoldable pub run_holders : List (Option ℕ) → List LockCall → Outcome (List (Option ℕ))
run_holders h [] = done h
run_holders h (c ∷ calls) = after (holders_after h c) (λ h1. run_holders h1 calls)

abbrev pub all_free : ℕ → List (Option ℕ)
all_free zero = []
all_free (suc n) = none ∷ all_free n

-- The threads that hold the mutexes of a table.
abbrev pub holders : {M : Type 0} → (M → Option ℕ) → Locks M → List (Option ℕ)
holders owner s = map owner s.mutexes

get_elem?-map :
    {A B : Type 0} (f : A → B) (xs : List A) (i : ℕ)
    → get_elem? (map f xs) i ≡ elim (get_elem? xs i) [ none ↦ none | some x ↦ some (f x) ]
get_elem?-map f [] i = refl
get_elem?-map f (x ∷ xs) zero = refl
get_elem?-map f (x ∷ xs) (suc i) = get_elem?-map f xs i

map-set :
    {A B : Type 0} (f : A → B) (xs : List A) (i : ℕ) (a : A)
    → map f (set xs i a) ≡ set (map f xs) i (f a)
map-set f [] i a = refl
map-set f (x ∷ xs) zero a = refl
map-set f (x ∷ xs) (suc i) a = ap (λ l. f x ∷ l) (map-set f xs i a)

-- A call that an outcome is mapped to goes on as the call before it.
map_outcome-after :
    {A B C D : Type 0} (f : A → B) (g : C → D) (k : A → Outcome C) (l : B → Outcome D)
    → ((a : A) → map_outcome g (k a) ≡ l (f a))
    → (x : Outcome A) → map_outcome g (after x k) ≡ after (map_outcome f x) l
map_outcome-after f g k l h (done a) = h a
map_outcome-after f g k l h waits = refl
map_outcome-after f g k l h undefined = refl

after-done :
    {A B C : Type 0} (g : A → B) (k : B → Outcome C) (x : Outcome A)
    → after (after x (λ a. done (g a))) k ≡ after x (λ a. k (g a))
after-done g k (done a) = refl
after-done g k waits = refl
after-done g k undefined = refl

run_holders-none :
    (c : LockCall) (calls : List LockCall) (h : List (Option ℕ))
    → get_elem? h c.number ≡ none
    → run_holders h (c ∷ calls) ≡ undefined
unfolding run_holders
run_holders-none c calls h e = rw (after, e) refl

run_holders-some :
    (c : LockCall) (calls : List LockCall) (h : List (Option ℕ)) (o : Option ℕ)
    → get_elem? h c.number ≡ some o
    → run_holders h (c ∷ calls)
      ≡ after (holder_after o c.is_lock c.thread) (λ o1. run_holders (set h c.number o1) calls)
unfolding run_holders
run_holders-some c calls h o e =
    rw (after, e)
      (after-done (λ o1. set h c.number o1) (λ k. run_holders k calls)
        (holder_after o c.is_lock c.thread))

run_unset :
    {M : Type 0} (lib : MutexLibrary M) (calls : List LockCall) (ms : List M)
    → run_locks lib (record { initialized = false; mutexes = ms }) calls
      ≡ done (record { initialized = false; mutexes = ms })
unfolding run_locks locking_function
run_unset lib [] ms = refl
run_unset lib (c ∷ calls) ms = run_unset lib calls ms

module _ {M : Type 0} (lib : MutexLibrary M) (owner : M → Option ℕ) (laws : Laws lib owner) where
  lock_function_lem :
      (m : M) (is_lock : Bool) (t : ℕ)
      → map_outcome owner (lock_function lib m is_lock t) ≡ holder_after (owner m) is_lock t
  unfolding lock_function
  lock_function_lem m true t = elim (Option-cases (owner m)) [
    | inl e ↦ let (m1, l, o) = laws.lock_free m t e in rw (e, l) (ap done o)
    | inr (u, e) ↦ rw (e, laws.lock_held m t u e) refl
  ]
  lock_function_lem m false t = elim (Option-cases (owner m)) [
    | inl e ↦ rw (e, laws.unlock_other m t (λ h. cc)) refl
    | inr (u, e) ↦ elim (Bool-cases (u == t)) [
      | inl q ↦
          let (m1, l, o) = laws.unlock_own m t (e ∙ ap some ((==_iff u t).0 q)) in
          rw (e, q, l) (ap done o)
      | inr q ↦ rw (e, q, laws.unlock_other m t (λ h. ground (arith, e, h, q))) refl
    ]
  ]

  abbrev ready : List M → Locks M
  ready ms = record { initialized = true; mutexes = ms }

  run_locks-some :
      (c : LockCall) (calls : List LockCall) (ms : List M) (m : M)
      → get_elem? ms c.number ≡ some m
      → run_locks lib (ready ms) (c ∷ calls)
        ≡ after
            (lock_function lib m c.is_lock c.thread)
            (λ m1. run_locks lib (ready (set ms c.number m1)) calls)
  unfolding run_locks locking_function
  run_locks-some c calls ms m e = rw e (
      after-done (λ m1. ready (set ms c.number m1)) (λ s. run_locks lib s calls)
        (lock_function lib m c.is_lock c.thread))

  run_ready :
      (calls : List LockCall) (ms : List M)
      → map_outcome (holders owner) (run_locks lib (ready ms) calls)
        ≡ run_holders (map owner ms) calls
  unfolding run_locks locking_function run_holders
  run_ready [] ms = refl
  run_ready (c ∷ calls) ms = elim (Option-cases (get_elem? ms c.number)) [
    | inl e ↦ rw e (
        sym (run_holders-none c calls (map owner ms) (get_elem?-map owner ms c.number ∙ rw e refl)))
    | inr (m, e) ↦
        ap (map_outcome (holders owner)) (run_locks-some c calls ms m e)
        ∙ map_outcome-after owner (holders owner)
            (λ m1. run_locks lib (ready (set ms c.number m1)) calls)
            (λ o. run_holders (set (map owner ms) c.number o) calls)
            (λ m1.
              run_ready calls (set ms c.number m1)
              ∙ ap (λ h. run_holders h calls) (map-set owner ms c.number m1))
            (lock_function lib m c.is_lock c.thread)
        ∙ rw (lock_function_lem m c.is_lock c.thread) (
            sym (
              run_holders-some c calls (map owner ms) (owner m)
                (get_elem?-map owner ms c.number ∙ rw e refl)))
  ]

  map-make_mutexes : (locks : ℕ) → map owner (make_mutexes lib locks) ≡ all_free locks
  unfolding make_mutexes
  map-make_mutexes zero = refl
  map-make_mutexes (suc n) = rw (laws.new_free, map-make_mutexes n) refl

  -- Before the initialisation and after the destructor the calls of OpenSSL lock nothing. Between them,
  -- whatever the order of the calls of all threads, each locks a free mutex, waits for a held one or
  -- gives back the caller's own: the threads that hold the mutexes, whether a call waits, and whether its
  -- behaviour is undefined, are those of a list of holders that starts with every mutex free.
  pub run_locks-holders :
      (before calls later : List LockCall) (locks : ℕ)
      → (run_locks lib no_locks before ≡ done no_locks)
        × (map_outcome (holders owner) (run_locks lib (init_locks lib locks) calls)
            ≡ run_holders (all_free locks) calls)
        × ((s : Locks M) → run_locks lib (close_locks s) later ≡ done (close_locks s))
  unfolding init_locks close_locks
  run_locks-holders before calls later locks = (
    run_unset lib before [],
    run_ready calls (make_mutexes lib locks)
        ∙ ap (λ h. run_holders h calls) (map-make_mutexes locks),
    λ s. run_unset lib later [],
  )
