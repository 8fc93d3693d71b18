-- ===== src/Dtls/Filter/Around.antt =====
-- bf_dwrap.c and DtlsSocket.cpp: sequences of calls on the filter.
use erizo.Base.{
  ℤ, pos, is_nonpositive, not, ◌≡◌, refl, Bool, true, false, List, [], ◌∷◌, ◌++◌, Option, none,
  some, Bytes, ◌>>=◌, arith,
}
use erizo.Dtls.Filter.{
  Command, reset, get_recv_timer_exp, set_recv_timeout, other, BioLibrary, Filter, dwrap_read,
  dwrap_write, dwrap_ctrl, dwrap_callback_ctrl, force_retransmit,
}

-- A call on a buffer.
pub data Call : Type 0 where
  reads : ℤ → Call
  writes : Bytes → ℤ → Call
  controls : Command → ℤ → Call
  callback_controls : Command → Call

-- A call that is not about the timer, and writes something if it writes.
abbrev pub is_plain : Call → Bool
is_plain (controls get_recv_timer_exp num) = false
is_plain (controls set_recv_timeout num) = false
is_plain (writes buf size) = not (is_nonpositive size)
is_plain _ = true

abbrev pub ArePlain : List Call → Type 0
ArePlain [] = Unit {0}
ArePlain (c ∷ calls) = (is_plain c ≡ true) × ArePlain calls

module _ {B : Type 0} (lib : BioLibrary B) where
  open lib use {bio_read, bio_write, bio_ctrl, bio_callback_ctrl}

  -- The call on the filter, its result and what it read.
  abbrev pub on_filter : Filter B → Call → Option (Filter B × ℤ × Bytes)
  on_filter b (reads size) = some (dwrap_read lib b true size)
  on_filter b (writes buf size) =
      let (c, ret) = dwrap_write lib b (some buf) size in some (c, ret, [])
  on_filter b (controls command num) = do (c, ret) ← dwrap_ctrl lib b command num; some (c, ret, [])
  on_filter b (callback_controls command) =
      let (c, ret) = dwrap_callback_ctrl lib b command in some (c, ret, [])

  -- The call on the buffer without a filter.
  abbrev pub on_buffer : B → Call → B × ℤ × Bytes
  on_buffer n (reads size) = bio_read n size
  on_buffer n (writes buf size) = let (m, ret) = bio_write n buf size in (m, ret, [])
  on_buffer n (controls command num) = let (m, ret) = bio_ctrl n command num in (m, ret, [])
  on_buffer n (callback_controls command) =
      let (m, ret) = bio_callback_ctrl n command in (m, ret, [])

  unfoldable pub filter_calls : Filter B → List Call → Option (Filter B × List (ℤ × Bytes))
  filter_calls b [] = some (b, [])
  filter_calls b (c ∷ calls) = do
    (b1, ret, out) ← on_filter b c
    (b2, rest) ← filter_calls b1 calls
    some (b2, (ret, out) ∷ rest)

  unfoldable pub buffer_calls : B → List Call → B × List (ℤ × Bytes)
  buffer_calls n [] = (n, [])
  buffer_calls n (c ∷ calls) =
      let (n1, ret, out) = on_buffer n c in
      let (n2, rest) = buffer_calls n1 calls in (n2, (ret, out) ∷ rest)

  -- A call on the filter gives what the call on the buffer gives, and the timer flag is `e`.
  abbrev Agrees : Bool → Option (Filter B × ℤ × Bytes) → B × ℤ × Bytes → Type 0
  Agrees e o q = (r : Filter B) × (o ≡ some (r, q.1, q.2)) × (r.context ≡ some e) × (r.next ≡ q.0)

  write-Agrees :
      (b : Filter B) (e : Bool) (buf : Bytes) (size : ℤ)
      → b.context ≡ some e
      → is_nonpositive size ≡ false
      → Agrees e (on_filter b (writes buf size)) (on_buffer b.next (writes buf size))
  unfolding dwrap_write
  write-Agrees b e buf size h p = rw p (_, refl, h, refl)

  on_filter-Agrees :
      (b : Filter B) (e : Bool) (c : Call)
      → b.context ≡ some e
      → is_plain c ≡ true
      → Agrees e (on_filter b c) (on_buffer b.next c)
  unfolding dwrap_read dwrap_ctrl dwrap_callback_ctrl
  on_filter-Agrees b e (reads size) h p = (_, refl, h, refl)
  on_filter-Agrees b e (writes buf size) h p = write-Agrees b e buf size h (ground arith)
  on_filter-Agrees b e (controls reset num) h p = (_, refl, h, refl)
  on_filter-Agrees b e (controls (other n) num) h p = (_, refl, h, refl)
  on_filter-Agrees b e (controls get_recv_timer_exp num) h p = cc
  on_filter-Agrees b e (controls set_recv_timeout num) h p = cc
  on_filter-Agrees b e (callback_controls command) h p = (_, refl, h, refl)

  bind_self :
      (o : Option (Filter B × List (ℤ × Bytes))) → o ≡ (do (c, rest) ← o; some (c, [] ++ rest))
  bind_self none = refl
  bind_self (some r) = refl

  abbrev cons_result :
      (ℤ × Bytes) → Option (Filter B × List (ℤ × Bytes)) → Option (Filter B × List (ℤ × Bytes))
  cons_result x o = do (c, rest) ← o; some (c, x ∷ rest)

  bind_cons :
      (o : Option (Filter B × List (ℤ × Bytes))) (x : ℤ × Bytes) (front : List (ℤ × Bytes))
      → cons_result x (do (c, rest) ← o; some (c, front ++ rest))
        ≡ (do (c, rest) ← o; some (c, (x ∷ front) ++ rest))
  bind_cons none x front = refl
  bind_cons (some r) x front = refl

  -- The calls go through the filter, and then come the calls `more` on what is left.
  filter_calls-append :
      (calls more : List Call) (b : Filter B) (e : Bool)
      → b.context ≡ some e
      → ArePlain calls
      → (r : Filter B) × (filter_calls b (calls ++ more)
          ≡ (do (c, rest) ← filter_calls r more; some (c, (buffer_calls b.next calls).1 ++ rest)))
        × (r.context ≡ some e)
        × (r.next ≡ (buffer_calls b.next calls).0)
  unfolding filter_calls buffer_calls
  filter_calls-append [] more b e h p = (b, bind_self (filter_calls b more), h, refl)
  filter_calls-append (c ∷ calls) more b e h p =
      let (b1, same, flag, next) = on_filter-Agrees b e c h p.0 in
      let (r, run, kept, last) = filter_calls-append calls more b1 e flag p.1 in
      (r, rw same (rw run (rw next (bind_cons (filter_calls r more) _ _))), kept, cc)

  -- OpenSSL asks twice whether the timer has expired.
  abbrev pub asks : List Call
  asks = controls get_recv_timer_exp (pos 0) ∷ controls get_recv_timer_exp (pos 0) ∷ []

  -- The calls gave what the buffer gives for them, and behind it a yes and a no.
  abbrev pub ExpiredOnce : Option (Filter B × List (ℤ × Bytes)) → B × List (ℤ × Bytes) → Type 0
  ExpiredOnce none q = ⊥
  ExpiredOnce (some (r, results)) q =
      (results ≡ q.1 ++ (pos 1, []) ∷ (pos 0, []) ∷ []) × (r.next ≡ q.0)

  asks-ExpiredOnce :
      (r : Filter B) (front : List (ℤ × Bytes)) (n : B)
      → r.context ≡ some true
      → r.next ≡ n
      → ExpiredOnce (do (c, rest) ← filter_calls r asks; some (c, front ++ rest)) (n, front)
  unfolding filter_calls dwrap_ctrl
  asks-ExpiredOnce r front n h e = rw h (refl, e)

  -- After a retransmission, whatever the handshake then reads from the input buffer, writes to it and
  -- asks of it that is not about the timer gives what the buffer without the filter gives; of the two
  -- times that it then asks whether the timer has expired, the first is told so and the second is not.
  pub force_retransmit_once :
      (input output : Filter B) (e : Bool) (calls : List Call)
      → input.context ≡ some e
      → ArePlain calls
      → ExpiredOnce
          (do (i, o) ← force_retransmit lib input output; filter_calls i (calls ++ asks))
          (buffer_calls (bio_ctrl input.next reset (pos 0)).0 calls)
  unfolding force_retransmit dwrap_ctrl
  force_retransmit_once input output e calls h k =
      let set = record input {
        context = some true;
        next = (bio_ctrl input.next reset (pos 0)).0;
      } in
      let (r, run, flag, last) = filter_calls-append calls asks set true refl k in
      rw h (rw run (asks-ExpiredOnce r _ _ flag last))
