-- ===== src/Dtls/Locks.antt =====
-- src/erizo/dtls/OpenSSLInit.h and OpenSSLInit.cpp: the table of mutexes that OpenSSL locks through a
-- callback. The mutexes of Boost are a parameter; whether the bit CRYPTO_LOCK of the mode is set is an
-- argument, as is the calling thread.
pub mod Holders
use erizo.Base.{
  ℕ, zero, suc, Bool, true, false, not, List, [], ◌∷◌, Option, none, some, get_elem?, set,
  if◌then◌else◌,
}

-- What a call does: it returns, it waits for a mutex, or its behaviour is undefined.
pub data Outcome (A : Type 0) : Type 0 where
  done : A → Outcome A
  waits undefined : Outcome A

abbrev pub after : {A B : Type 0} → Outcome A → (A → Outcome B) → Outcome B
after (done a) f = f a
after waits f = waits
after undefined f = undefined

-- The calls of `boost::mutex`, by a thread. `none` is, for `lock`, that the thread waits, and for
-- `unlock`, that its precondition does not hold.
pub record MutexLibrary (M : Type 0) : Type 0 where
  pub new_mutex : M
  pub lock : M → ℕ → Option M
  pub unlock : M → ℕ → Option M

-- `mInitialized` and `mMutexes`
pub record Locks (M : Type 0) : Type 0 where
  pub initialized : Bool
  pub mutexes : List M

-- A call of `resip_OpenSSLInit_lockingFunction`.
pub record LockCall : Type 0 where
  pub is_lock : Bool
  pub number : ℕ
  pub thread : ℕ

-- Before `init`.
abbrev pub no_locks : {M : Type 0} → Locks M
no_locks = record { initialized = false; mutexes = [] }

module _ {M : Type 0} (lib : MutexLibrary M) where
  open lib use {new_mutex, lock, unlock}

  -- `new boost::mutex[locks]`
  unfoldable pub make_mutexes : ℕ → List M
  make_mutexes zero = []
  make_mutexes (suc n) = new_mutex ∷ make_mutexes n

  -- The constructor, with what `CRYPTO_num_locks` gives.
  unfoldable pub init_locks : ℕ → Locks M
  unfolding make_mutexes
  init_locks locks = record { initialized = true; mutexes = make_mutexes locks }

  -- `resip_OpenSSLInit_dynLockFunction`: a lock or an unlock of one mutex.
  unfoldable pub lock_function : M → Bool → ℕ → Outcome M
  lock_function m is_lock thread =
      if is_lock
      then elim (lock m thread) [ none ↦ waits | some m1 ↦ done m1 ]
      else elim (unlock m thread) [ none ↦ undefined | some m1 ↦ done m1 ]

  -- `resip_OpenSSLInit_lockingFunction`
  unfoldable pub locking_function : Locks M → LockCall → Outcome (Locks M)
  unfolding lock_function
  locking_function s c = if not s.initialized then done s else elim (get_elem? s.mutexes c.number) [
    | none ↦ undefined
    | some m ↦
        after (lock_function m c.is_lock c.thread)
          (λ m1. done (record s { mutexes = set s.mutexes c.number m1 }))
  ]

  -- The calls of all threads, in their order.
  unfoldable pub run_locks : Locks M → List LockCall → Outcome (Locks M)
  unfolding locking_function
  run_locks s [] = done s
  run_locks s (c ∷ calls) = after (locking_function s c) (λ s1. run_locks s1 calls)

-- `resip_OpenSSLInit_dynCreateFunction`
unfoldable pub dyn_create : {M : Type 0} → MutexLibrary M → M
dyn_create lib = lib.new_mutex

-- The destructor.
unfoldable pub close_locks : {M : Type 0} → Locks M → Locks M
close_locks s = record { initialized = false; mutexes = [] }
