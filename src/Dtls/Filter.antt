-- ===== src/Dtls/Filter.antt =====
-- src/erizo/dtls/bf_dwrap.c: the filter that stands in front of the memory buffers of a DTLS socket, and
-- the calls of DtlsSocket.cpp on it. OpenSSL's buffer behind the filter is a parameter. `none` is a
-- failed assertion or the use of a null pointer.
pub mod Around
use erizo.Base.{
  ℕ, ℤ, pos, negsuc, length, ◌==◌, is_nonpositive, Bool, true, false, not, ◌||◌, List, [], ◌∷◌,
  Option, none, some, Bytes, if◌then◌else◌, ◌>>=◌,
}

-- `BIO_CTRL_RESET`, the two commands about the timer of datagrams, and the others.
pub data Command : Type 0 where
  reset get_recv_timer_exp set_recv_timeout : Command
  other : ℕ → Command

-- The calls of OpenSSL on the buffer behind: `BIO_read` with what it reads, `BIO_write`, `BIO_ctrl`,
-- `BIO_callback_ctrl`, and the bits that ask for another try.
pub record BioLibrary (B : Type 0) : Type 0 where
  pub bio_read : B → ℤ → B × ℤ × Bytes
  pub bio_write : B → Bytes → ℤ → B × ℤ
  pub bio_ctrl : B → Command → ℤ → B × ℤ
  pub bio_callback_ctrl : B → Command → B × ℤ
  pub retry_flags : B → ℕ

-- A `BIO` with this filter; the context, which may be null, holds `dgram_timer_exp`.
pub record Filter (B : Type 0) : Type 0 where
  pub init : Bool
  pub context : Option Bool
  pub retry : ℕ
  pub next : B

module _ {B : Type 0} where
  -- `dwrap_new`: without memory the result is 0.
  unfoldable pub dwrap_new : Bool → Filter B → Filter B × ℕ
  dwrap_new has_memory b =
      if has_memory then (record b { init = true; context = some false; retry = 0 }, 1) else (b, 0)

  -- `dwrap_free`: the result, and whether the null pointer was freed.
  unfoldable pub dwrap_free : Option (Filter B) → ℕ × Bool
  dwrap_free none = (1, true)
  dwrap_free (some b) = (0, false)

  -- `dwrap_puts` and `dwrap_gets` assert false.
  unfoldable pub dwrap_puts : Filter B → Bytes → Option ℤ
  dwrap_puts b text = none

  unfoldable pub dwrap_gets : Filter B → ℕ → Option (ℤ × Bytes)
  dwrap_gets b size = none

-- `r==(int)len`
abbrev is_pos : ℤ → ℕ → Bool
is_pos (pos m) n = m == n
is_pos (negsuc m) n = false

module _ {B : Type 0} (lib : BioLibrary B) where
  open lib use {bio_read, bio_write, bio_ctrl, bio_callback_ctrl, retry_flags}

  -- `dwrap_read`; `has_out` tells that there is a buffer to read into.
  unfoldable pub dwrap_read : Filter B → Bool → ℤ → Filter B × ℤ × Bytes
  dwrap_read b has_out size =
      if not has_out
      then (b, pos 0, [])
      else (let (n, ret, out) = bio_read b.next size in
          (
            record b { next = n; retry = if is_nonpositive ret then retry_flags n else 0 },
            ret,
            out,
          ))

  -- `dwrap_write`
  unfoldable pub dwrap_write : Filter B → Option Bytes → ℤ → Filter B × ℤ
  dwrap_write b none size = (b, pos 0)
  dwrap_write b (some buf) size =
      if is_nonpositive size
      then (b, pos 0)
      else (let (n, ret) = bio_write b.next buf size in (record b { next = n }, ret))

  -- The default case of `dwrap_ctrl`.
  pass_on : Filter B → Command → ℤ → Filter B × ℤ
  pass_on b command num = let (n, ret) = bio_ctrl b.next command num in (record b { next = n }, ret)

  -- `dwrap_ctrl`
  unfoldable pub dwrap_ctrl : Filter B → Command → ℤ → Option (Filter B × ℤ)
  unfolding pass_on
  dwrap_ctrl b get_recv_timer_exp num = do
    expired ← b.context
    some (record b { context = some false }, if expired then pos 1 else pos 0)
  dwrap_ctrl b set_recv_timeout num = do
    expired ← b.context
    some (record b { context = some true }, pos 1)
  dwrap_ctrl b reset num = some (pass_on b reset num)
  dwrap_ctrl b (other n) num = some (pass_on b (other n) num)

  -- `dwrap_callback_ctrl`
  unfoldable pub dwrap_callback_ctrl : Filter B → Command → Filter B × ℤ
  dwrap_callback_ctrl b command =
      let (n, ret) = bio_callback_ctrl b.next command in (record b { next = n }, ret)

  -- The calls of `handlePacketMaybe` on the buffer for input and the one for output, before the
  -- handshake goes on: it asserts that the packet is taken whole.
  unfoldable pub take_packet : Filter B → Filter B → Bytes → Option (Filter B × Filter B)
  take_packet input output buf = do
    (input1, r1) ← dwrap_ctrl input reset (pos 0)
    (output1, r2) ← dwrap_ctrl output reset (pos 0)
    let (input2, ret) = dwrap_write input1 (some buf) (pos (length buf))
    if is_pos ret (length buf) then some (input2, output1) else none

  -- The calls of `forceRetransmit`, before the handshake goes on.
  unfoldable pub force_retransmit : Filter B → Filter B → Option (Filter B × Filter B)
  force_retransmit input output = do
    (input1, r1) ← dwrap_ctrl input reset (pos 0)
    (output1, r2) ← dwrap_ctrl output reset (pos 0)
    (input2, r3) ← dwrap_ctrl input1 set_recv_timeout (pos 0)
    some (input2, output1)
