-- ===== src/Dtls/Timers.antt =====
-- DtlsSocket.cpp and DtlsTimer.cpp: the timers and the reports of a socket over a history of packets and
-- timer ticks.
use erizo.Base.{
  ℕ, suc, ◌+◌, ◌<◌, ◌≡◌, refl, inl, inr, Bool, true, false, List, [], ◌∷◌, ◌++◌, Option, none, some,
  Bytes, arith, Option-cases,
}
use erizo.Dtls.Socket.{
  Timer, valid, invalid, deleted, Socket, SslError, error_none, want_read, other_error, SocketEvent,
  completed, do_handshake_iteration, update_timer, Action, iterate, tick, act, run, new_socket,
  SocketType,
}

-- A pointer to a timer is null or names a timer of that kind that was made.
abbrev pub Points : (Timer → Type 0) → Socket → Option ℕ → Type 0
Points P s none = Unit {0}
Points P s (some n) = P (s.timers n) × (n < s.next_timer)

abbrev pub IsAlive : Timer → Type 0
IsAlive valid = Unit {0}
IsAlive invalid = Unit {0}
IsAlive deleted = ⊥

abbrev pub IsWanted : Timer → Type 0
IsWanted valid = Unit {0}
IsWanted invalid = ⊥
IsWanted deleted = ⊥

-- The socket's timer is valid, and the context's timer has not been deleted.
pub record IsSafe (s : Socket) : Type 0 where
  pub reads : Points IsWanted s s.read_timer
  pub holds : Points IsAlive s s.timer

pub new_socket-IsSafe : (t : SocketType) → IsSafe (new_socket t)
unfolding new_socket
new_socket-IsSafe t = record { reads = tt; holds = tt }

abbrev pub Succeeds : Option (Socket × List SocketEvent) → Type 0
Succeeds none = ⊥
Succeeds (some (t, es)) = IsSafe t

pub iterate-Succeeds :
    (s : Socket) (result : SslError) (out : Bytes) (now : ℕ)
    → IsSafe s
    → Succeeds (do_handshake_iteration s result out now)
unfolding do_handshake_iteration
iterate-Succeeds s error_none out now h = ground arith
iterate-Succeeds s want_read out now h = ground arith
iterate-Succeeds s (other_error n) out now h = ground arith

tick-Succeeds :
    (s : Socket) (result : SslError) (out : Bytes) (now : ℕ)
    → IsSafe s
    → Succeeds (update_timer s result out now)
unfolding update_timer
tick-Succeeds s result out now h =
    ground (arith, iterate-Succeeds (record s { timer = none }) result out now)

pub act-Succeeds : (s : Socket) (a : Action) → IsSafe s → Succeeds (act s a)
unfolding act
act-Succeeds s (iterate result out now) h = iterate-Succeeds s result out now h
act-Succeeds s (tick result out now) h = tick-Succeeds s result out now h

-- A result, and that the socket is safe in it.
abbrev pub Ends : Option (Socket × List SocketEvent) → Type 0
Ends r = (t : Socket) × (es : List SocketEvent) × (r ≡ some (t, es)) × IsSafe t

Ends-Succeeds : (r : Option (Socket × List SocketEvent)) → Succeeds r → Ends r
Ends-Succeeds none h = elim h [ ]
Ends-Succeeds (some (t, es)) h = (t, es, refl, h)

run-Ends : (s : Socket) (history : List Action) → IsSafe s → Ends (run s history)
unfolding run
run-Ends s [] h = (s, [], refl, h)
run-Ends s (a ∷ rest) h =
    let (t, es, e, ht) = Ends-Succeeds (act s a) (act-Succeeds s a h) in
    let (u, fs, f, hu) = run-Ends t rest ht in (u, es ++ fs, rw (e, f), hu)

-- From a new socket, every history of packets, handshake outcomes and timer ticks runs to its end
-- without touching a deleted timer; then the socket's own timer, if it has one, is valid, and the
-- timer of its context, if it has one, has not been deleted.
pub run-new_socket_safe :
    (type : SocketType) (history : List Action) → Ends (run (new_socket type) history)
run-new_socket_safe type history = run-Ends (new_socket type) history (new_socket-IsSafe type)

-- How often the context is told that the handshake is complete.
abbrev pub count_completed : List SocketEvent → ℕ
count_completed [] = 0
count_completed (completed ∷ es) = suc (count_completed es)
count_completed (e ∷ es) = count_completed es

abbrev pub as_number : Bool → ℕ
as_number true = 1
as_number false = 0

-- An action reports the completion once if it completes the handshake, and else not.
abbrev pub Counts : Socket → Option (Socket × List SocketEvent) → Type 0
Counts s none = Unit {0}
Counts s (some (t, es)) =
    count_completed es + as_number s.handshake_completed ≡ as_number t.handshake_completed

pub iterate-Counts :
    (s : Socket) (result : SslError) (out : Bytes) (now : ℕ)
    → Counts s (do_handshake_iteration s result out now)
unfolding do_handshake_iteration
iterate-Counts s error_none out now = ground arith
iterate-Counts s want_read out now = ground arith
iterate-Counts s (other_error n) out now = ground arith

pub act-Counts : (s : Socket) (a : Action) → Counts s (act s a)
unfolding act
act-Counts s (iterate result out now) = iterate-Counts s result out now
act-Counts s (tick result out now) =
    unfold update_timer in ground (arith, iterate-Counts (record s { timer = none }) result out now)

count_completed-append :
    (es fs : List SocketEvent)
    → count_completed (es ++ fs) ≡ count_completed es + count_completed fs
count_completed-append [] fs = omega arith
count_completed-append (completed ∷ es) fs = omega (arith, count_completed-append es fs)
count_completed-append (e ∷ es) fs = count_completed-append es fs

run-Counts : (s : Socket) (history : List Action) → Counts s (run s history)
unfolding run
run-Counts s [] = omega arith
run-Counts s (a ∷ rest) = elim (Option-cases (act s a)) [
  | inl e ↦ rw e tt
  | inr ((t, es), e) ↦ rw e (elim (Option-cases (run t rest)) [
    | inl f ↦ rw f tt
    | inr ((u, fs), f) ↦ rw f (
        omega (
          arith,
          rw e at (act-Counts s a),
          rw f at (run-Counts t rest),
          count_completed-append es fs,
        ))
  ])
]

-- In every history from a new socket the context is told of the completed handshake at most once,
-- and exactly once if the socket ends with its handshake completed.
pub run-new_socket_completed :
    (type : SocketType) (history : List Action) (t : Socket) (es : List SocketEvent)
    → run (new_socket type) history ≡ some (t, es)
    → count_completed es ≡ as_number t.handshake_completed
unfolding new_socket
run-new_socket_completed type history t es e =
    omega (arith, rw e at (run-Counts (new_socket type) history))
