-- ===== src/Connection/Interleaving.antt =====
-- WebRtcConnection.cpp: `queueData` of the transports' threads and the rounds of `sendLoop`, in any
-- order. Both hold the mutex of the queue, so they are steps.
use erizo.Base.{
  ℕ, ◌≡◌, ◌∙◌, ap, subst, sym, List, [], ◌∷◌, ◌++◌, Option, none, some, Bytes, ◌>>=◌, if◌then◌else◌,
  length, ltb, arith, Option-cases, Bool-cases, refl, inl, inr,
}
use mathlib.Core.List.{append-nil, append_assoc}
use erizo.Sdp.Types.{MediaType}
use erizo.Connection.State.{
  AnyTransport, Connection, ConnectionEvent, DataPacket, queue_data, send_round, send_front,
}
use erizo.Connection.Sending.{routed, all_routed, send_front-routed, round_front, with_queue}
use erizo.Connection.Packets.{queued}

pub data QueueStep : Type 0 where
  enqueue : ℕ → Bytes → MediaType → QueueStep
  send : QueueStep

chained :
    {A : Type 0} (sent rest_sent last middle first taken rest_taken : List A)
    → sent ++ middle ≡ first ++ taken
    → rest_sent ++ last ≡ middle ++ rest_taken
    → (sent ++ rest_sent) ++ last ≡ first ++ (taken ++ rest_taken)
chained sent rest_sent last middle first taken rest_taken h k =
    append_assoc sent rest_sent last
    ∙ ap (λ l. sent ++ l) k
    ∙ sym (append_assoc sent middle rest_taken)
    ∙ ap (λ l. l ++ rest_taken) h
    ∙ append_assoc first taken rest_taken

module _ {S : Type 0} where
  -- The packet that a step takes into the queue.
  unfoldable pub taken_by : Connection S → QueueStep → List DataPacket
  taken_by c send = []
  taken_by c (enqueue comp buf media) =
      if ltb (length c.send_queue) 1000 then queued c comp buf media ∷ [] else []

  unfoldable pub queue_step :
      Connection S → QueueStep → Option (Connection S × List ConnectionEvent)
  queue_step c (enqueue comp buf media) = do d ← queue_data c comp buf media; some (d, [])
  queue_step c send = send_round c

  -- A sequence of steps: what they write, and the packets taken, in order.
  unfoldable pub interleave :
      Connection S
      → List QueueStep
      → Option (Connection S × (List ConnectionEvent × List DataPacket))
  unfolding queue_step taken_by
  interleave c [] = some (c, ([], []))
  interleave c (step ∷ steps) = do
    (d, first) ← queue_step c step
    (e, (rest, taken)) ← interleave d steps
    some (e, (first ++ rest, taken_by c step ++ taken))

  -- The events write `sent` on the transports of `c`, which stay, and the queue is what is left.
  abbrev Moves :
      Connection S
      → Connection S
      → List ConnectionEvent
      → List DataPacket
      → List DataPacket
      → Type 0
  Moves c d events taken sent =
      (events ≡ all_routed c.video_transport c.audio_transport sent)
      × (sent ++ d.send_queue ≡ c.send_queue ++ taken)
      × (d.video_transport ≡ c.video_transport)
      × (d.audio_transport ≡ c.audio_transport)

  send-Moves :
      (c : Connection S) (queue : List DataPacket) {d : Connection S}
      {events : List ConnectionEvent}
      → send_round (with_queue c queue) ≡ some (d, events)
      → (sent : List DataPacket) × Moves (with_queue c queue) d events [] sent
  unfolding send_round
  send-Moves c [] {d} {events} e = ([], ground arith)
  send-Moves c (p ∷ ps) {d} {events} e = elim (Bool-cases c.sending) [
    | inr s ↦ ([], ground (arith, append-nil ps))
    | inl s ↦ elim (Option-cases (send_front c p)) [
      | inl f ↦ ([], ground (arith, round_front c p ps s))
      | inr (es, f) ↦ (
        p ∷ [],
        ground (
          arith,
          round_front c p ps s,
          send_front-routed c p f,
          append-nil (routed c.video_transport c.audio_transport p.kind p),
          append-nil ps,
        ),
      )
    ]
  ]

  step-Moves :
      (c : Connection S) (step : QueueStep) {d : Connection S} {events : List ConnectionEvent}
      → queue_step c step ≡ some (d, events)
      → (sent : List DataPacket) × Moves c d events (taken_by c step) sent
  unfolding queue_step taken_by queue_data
  step-Moves c (enqueue comp buf media) {d} {events} e =
      ([], ground (arith, append-nil c.send_queue))
  step-Moves c send {d} {events} e = send-Moves c c.send_queue e

  abbrev IsFifo :
      Connection S → Option (Connection S × (List ConnectionEvent × List DataPacket)) → Type 0
  IsFifo c none = Unit {0}
  IsFifo c (some (d, (events, taken))) = (sent : List DataPacket) × Moves c d events taken sent

  all_routed-append :
      (video audio : Option (AnyTransport S)) (ps qs : List DataPacket)
      → all_routed video audio (ps ++ qs) ≡ all_routed video audio ps ++ all_routed video audio qs
  all_routed-append video audio [] qs = refl
  all_routed-append video audio (p ∷ ps) qs =
      ap (λ l. routed video audio p.kind p ++ l) (all_routed-append video audio ps qs)
      ∙ sym (
          append_assoc (routed video audio p.kind p) (all_routed video audio ps)
            (all_routed video audio qs))

  Moves-then :
      (c d e : Connection S) (first rest : List ConnectionEvent)
      (taken rest_taken sent rest_sent : List DataPacket)
      → Moves c d first taken sent
      → Moves d e rest rest_taken rest_sent
      → Moves c e (first ++ rest) (taken ++ rest_taken) (sent ++ rest_sent)
  Moves-then c d e first rest taken rest_taken sent rest_sent (w, q, v, a) (w2, q2, v2, a2) = (
    rw (w, w2, v, a) (sym (all_routed-append c.video_transport c.audio_transport sent rest_sent)),
    chained sent rest_sent e.send_queue d.send_queue c.send_queue taken rest_taken q q2,
    v2 ∙ v,
    a2 ∙ a,
  )

  interleave-IsFifo : (steps : List QueueStep) (c : Connection S) → IsFifo c (interleave c steps)
  unfolding interleave
  interleave-IsFifo [] c = ([], (refl, sym (append-nil c.send_queue), refl, refl))
  interleave-IsFifo (step ∷ steps) c = elim (Option-cases (queue_step c step)) [
    | inl e ↦ rw e tt
    | inr ((d, first), e) ↦ rw e (elim (Option-cases (interleave d steps)) [
      | inl f ↦ rw f tt
      | inr ((g, (rest, taken)), f) ↦ rw f (
          let (sent, h) = step-Moves c step e in
          let (rest_sent, k) = subst (IsFifo d) f (interleave-IsFifo steps d) in
          (
            sent ++ rest_sent,
            Moves-then c d g first rest (taken_by c step) taken sent rest_sent h k,
          ))
    ])
  ]

  -- In any interleaving of `queueData` and rounds of the loop that is defined, what is written on the
  -- ICE connections is a list of packets in order, each once, an audio packet on the audio transport if
  -- there is one and any other on the video transport; these packets, followed by those still queued,
  -- are the packets that were queued at first, followed by those that were taken: none is lost,
  -- repeated or overtaken.
  pub interleave_fifo :
      (steps : List QueueStep) (c : Connection S) {d : Connection S} {events : List ConnectionEvent}
      {taken : List DataPacket}
      → interleave c steps ≡ some (d, (events, taken))
      → (sent : List DataPacket) × (events ≡ all_routed c.video_transport c.audio_transport sent)
        × (sent ++ d.send_queue ≡ c.send_queue ++ taken)
  interleave_fifo steps c {d} {events} {taken} e =
      let (sent, (w, q, v, a)) = subst (IsFifo c) e (interleave-IsFifo steps c) in (sent, w, q)
