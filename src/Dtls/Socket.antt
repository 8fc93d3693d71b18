-- ===== src/Dtls/Socket.antt =====
-- src/erizo/dtls/DtlsSocket.cpp and DtlsTimer.cpp: the handshake of one socket, and the timers of its
-- factory's context, which serves that socket alone. Timers are objects that C++ code deletes, so
-- they live in an explicit heap. OpenSSL's engine is outside: the outcome of `SSL_do_handshake` and
-- the bytes in the output buffer are arguments. `none` is a use of a deleted timer.
use erizo.Base.{
  ℕ, suc, ◌+◌, ◌-◌, Bool, true, false, List, [], ◌∷◌, ◌++◌, Option, none, some, Bytes, ◌==◌, ltb,
  if◌then◌else◌, ◌>>=◌,
}

-- A `DtlsTimer`: it may have been deleted, and else `mValid` tells whether it is still wanted.
pub data Timer : Type 0 where
  valid invalid deleted : Timer

pub data SocketType : Type 0 where
  client server : SocketType

-- What `SSL_get_error` tells of the handshake.
pub data SslError : Type 0 where
  error_none want_read : SslError
  other_error : ℕ → SslError

pub record Socket : Type 0 where
  pub socket_type : SocketType
  pub handshake_completed : Bool
  -- `mReadTimer`
  pub read_timer : Option ℕ
  -- `mTimer` and `mExpiryTime` of the timer context
  pub timer : Option ℕ
  pub expiry_time : ℕ
  -- the heap: the timers made so far, by number
  pub timers : ℕ → Timer
  pub next_timer : ℕ

-- What the socket tells its context.
pub data SocketEvent : Type 0 where
  completed : SocketEvent
  handshake_failed : ℕ → SocketEvent
  write_out : Bytes → SocketEvent

-- The constructor, with the context of a new factory.
unfoldable pub new_socket : SocketType → Socket
new_socket type = record {
  socket_type = type;
  handshake_completed = false;
  read_timer = none;
  timer = none;
  expiry_time = 0;
  timers = λ _. deleted;
  next_timer = 0;
}

abbrev pub store_timer : Socket → ℕ → Timer → Socket
store_timer s n t = record s { timers = λ k. if k == n then t else s.timers k }

invalidate_at : Socket → ℕ → Timer → Option Socket
invalidate_at s n deleted = none
invalidate_at s n valid = some (store_timer s n invalid)
invalidate_at s n invalid = some (store_timer s n invalid)

-- `if(mReadTimer) mReadTimer->invalidate();`
unfoldable pub invalidate_read : Socket → Option ℕ → Option Socket
unfolding invalidate_at
invalidate_read s none = some s
invalidate_read s (some n) = invalidate_at s n (s.timers n)

delete_at : Socket → ℕ → Timer → Option Socket
delete_at s n deleted = none
delete_at s n valid = some (store_timer s n deleted)
delete_at s n invalid = some (store_timer s n deleted)

-- `delete`
unfoldable pub delete_timer : Socket → Option ℕ → Option Socket
unfolding delete_at
delete_timer s none = some s
delete_timer s (some n) = delete_at s n (s.timers n)

-- `getReadTimeout`
abbrev pub read_timeout : ℕ
read_timeout = 500

-- `TestTimerContext::addTimer`
unfoldable pub add_timer : Socket → ℕ → ℕ → ℕ → Option Socket
unfolding delete_timer
add_timer s n lifetime now = do
  t ← delete_timer s s.timer
  some (record t { timer = some n; expiry_time = now + lifetime })

-- The case of `SSL_ERROR_WANT_READ` where something was written.
unfoldable pub restart_timer : Socket → ℕ → Option Socket
unfolding invalidate_read add_timer
restart_timer s now = do
  t ← invalidate_read s s.read_timer
  let fresh = t.next_timer
  let made = record (store_timer t fresh valid) { next_timer = suc fresh; read_timer = some fresh }
  add_timer made fresh read_timeout now

abbrev is_nil : Bytes → Bool
is_nil [] = true
is_nil (b ∷ bs) = false

abbrev pub written : Bytes → List SocketEvent
written out = if is_nil out then [] else write_out out ∷ []

-- The `switch` of `doHandshakeIteration`, with the write behind it.
unfoldable pub handle_result : Socket → SslError → Bytes → ℕ → Option (Socket × List SocketEvent)
unfolding invalidate_read restart_timer
handle_result s error_none out now = do
  t ← invalidate_read s s.read_timer
  some (record t { handshake_completed = true; read_timer = none }, completed ∷ written out)
handle_result s want_read out now =
    if is_nil out then some (s, []) else (do t ← restart_timer s now; some (t, written out))
handle_result s (other_error n) out now = some (s, handshake_failed n ∷ written out)

-- `doHandshakeIteration`
unfoldable pub do_handshake_iteration :
    Socket → SslError → Bytes → ℕ → Option (Socket × List SocketEvent)
unfolding handle_result
do_handshake_iteration s result out now =
    if s.handshake_completed then some (s, []) else handle_result s result out now

fire_at : Socket → ℕ → Timer → SslError → Bytes → ℕ → Option (Socket × List SocketEvent)
fire_at s n deleted result out now = none
fire_at s n valid result out now = do_handshake_iteration s result out now
fire_at s n invalid result out now = some (store_timer s n deleted, [])

fire : Socket → Option ℕ → SslError → Bytes → ℕ → Option (Socket × List SocketEvent)
unfolding fire_at
fire s none result out now = some (s, [])
fire s (some n) result out now =
    if ltb s.expiry_time now
    then fire_at (record s { timer = none }) n (s.timers n) result out now
    else some (s, [])

-- `updateTimer`, with `fire` of a timer and `expired` and `forceRetransmit` of the socket: a valid
-- timer that is due makes one more iteration, an invalid one deletes itself.
unfoldable pub update_timer : Socket → SslError → Bytes → ℕ → Option (Socket × List SocketEvent)
unfolding fire do_handshake_iteration
update_timer s result out now = fire s s.timer result out now

-- `getRemainingTime`: without a timer the result is the largest `unsigned long long` (a `long long`
-- of -1).
unfoldable pub remaining_time : Socket → ℕ → Option ℕ
remaining_time s now = elim s.timer [
  | none ↦ none
  | some n ↦ some (if ltb s.expiry_time now then 0 else s.expiry_time - now)
]

-- What happens to a socket: a packet or the start (an iteration), or a tick of the timer's owner.
pub data Action : Type 0 where
  iterate tick : SslError → Bytes → ℕ → Action

unfoldable pub act : Socket → Action → Option (Socket × List SocketEvent)
unfolding do_handshake_iteration update_timer
act s (iterate result out now) = do_handshake_iteration s result out now
act s (tick result out now) = update_timer s result out now

-- A history of them, with all that the context is told.
unfoldable pub run : Socket → List Action → Option (Socket × List SocketEvent)
run s [] = some (s, [])
run s (a ∷ rest_of) = do (t, first) ← act s a; (u, rest) ← run t rest_of; some (u, first ++ rest)
