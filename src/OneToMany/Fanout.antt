-- ===== src/OneToMany/Fanout.antt =====
-- OneToManyProcessor.cpp: who is handed what.
use erizo.Base.{
  List, ◌++◌, ◌+◌, ◌%◌, ◌^◌, Bool, false, ◌||◌, ◌==◌, ℕ, ◌≡◌, refl, ap, ◌∙◌, [], ◌∷◌, map, none,
  some, Bytes, arith, equal, if◌then◌else◌,
}
use erizo.Rtp.RtcpHeader
use erizo.Rtp.RtcpHeader.{rtcp_receiver_pt, rtcp_feedback_pt}
use erizo.OneToMany.Processor.{
  Subscribers, find, Processor, add_subscriber, remove_subscriber, Deliver, fan_out, no_subscribers,
  to_subscribers, deliver_video_data,
}
use erizo.OneToMany.Subscribers.{
  IsOrdered, find-insert, find-erase, insert-IsOrdered, erase-IsOrdered, equal_iff,
}

-- A receiver report or feedback.
abbrev pub is_feedback : Bytes → Bool
is_feedback buf =
    RtcpHeader.packettype buf == rtcp_receiver_pt || RtcpHeader.packettype buf == rtcp_feedback_pt

abbrev pub sink_of : Bytes × ℕ → ℕ
sink_of (k, s) = s

-- The subscribers are handed a packet each once, in the order of their names.
pub map_sink-fan_out :
    (deliver : Deliver) (m : Subscribers) (buf : Bytes)
    → map (λ (p : ℕ × Bytes). p.0) (fan_out deliver m buf) ≡ map sink_of m
unfolding fan_out
map_sink-fan_out deliver [] buf = refl
map_sink-fan_out deliver ((k, s) ∷ m) buf =
    ap (λ r. s ∷ r) (map_sink-fan_out deliver m (deliver s buf))

-- When `addSubscriber` succeeds, its sink is the subscriber of that name, and the others stay.
pub find-add_subscriber :
    (p : Processor) (sink : ℕ) (peer_id j : Bytes) {q : Processor}
    → add_subscriber p sink peer_id ≡ some q
    → find q.subscribers j ≡ (if equal peer_id j then some sink else find p.subscribers j)
unfolding add_subscriber
find-add_subscriber p sink peer_id j {q} e =
    ground (arith, find-insert p.subscribers peer_id j sink)

-- With names in order, after `removeSubscriber` the name has no subscriber, and the others stay.
find-remove_subscriber :
    (p : Processor) (peer_id j : Bytes)
    → IsOrdered p.subscribers
    → find (remove_subscriber p peer_id).subscribers j
      ≡ (if equal peer_id j then none else find p.subscribers j)
unfolding remove_subscriber
find-remove_subscriber p peer_id j o =
    ground (arith, find-erase p.subscribers peer_id j o, equal_iff peer_id j)

-- A change of the subscribers.
pub data RosterStep : Processor → Processor → Type 0 where
  joins :
      {p q : Processor} (sink : ℕ) (peer_id : Bytes)
      → add_subscriber p sink peer_id ≡ some q
      → RosterStep p q
  leaves : (p : Processor) (peer_id : Bytes) → RosterStep p (remove_subscriber p peer_id)

-- Joins and leaves keep the names in strictly rising order, so that no name stands twice.
step-IsOrdered :
    (p q : Processor) → RosterStep p q → IsOrdered p.subscribers → IsOrdered q.subscribers
unfolding add_subscriber remove_subscriber
step-IsOrdered p q (joins sink peer_id e) o =
    ground (arith, insert-IsOrdered p.subscribers peer_id sink o)
step-IsOrdered p q (leaves _ peer_id) o = ground (arith, erase-IsOrdered p.subscribers peer_id o)

abbrev with_packet : Bytes → Bytes × ℕ → ℕ × Bytes
with_packet buf (k, s) = (s, buf)

-- If no subscriber changes the packet it is given, each is handed the packet that came in.
fan_out_same :
    (deliver : Deliver) (m : Subscribers) (buf : Bytes)
    → ((s : ℕ) → deliver s buf ≡ buf)
    → fan_out deliver m buf ≡ map (with_packet buf) m
unfolding fan_out
fan_out_same deliver [] buf h = refl
fan_out_same deliver ((k, s) ∷ m) buf h =
    rw (h s) (ap (λ r. (s, buf) ∷ r) (fan_out_same deliver m buf h))

-- The buffer when these subscribers have been handed it.
abbrev pub left_by : Deliver → Subscribers → Bytes → Bytes
left_by deliver [] buf = buf
left_by deliver ((k, s) ∷ m) buf = left_by deliver m (deliver s buf)

fan_out-append :
    (deliver : Deliver) (before m : Subscribers) (buf : Bytes)
    → fan_out deliver (before ++ m) buf
      ≡ fan_out deliver before buf ++ fan_out deliver m (left_by deliver before buf)
unfolding fan_out
fan_out-append deliver [] m buf = refl
fan_out-append deliver ((k, s) ∷ before) m buf =
    ap (λ r. (s, buf) ∷ r) (fan_out-append deliver before m (deliver s buf))

some_subscriber :
    (before later : Subscribers) (name : Bytes) (s : ℕ)
    → no_subscribers (before ++ ((name, s) ∷ later)) ≡ false
some_subscriber [] later name s = refl
some_subscriber (x ∷ before) later name s = refl

-- When `deliverVideoData` is given a packet that is not feedback, in a room with subscribers, it counts the
-- packet and hands it to the subscribers, each once and in the order of their names: the first gets the
-- packet, and each other one gets the buffer as those before it left it.
pub deliver_video_data_handed :
    (deliver : Deliver) (p : Processor) (before later : Subscribers) (name : Bytes) (s b : ℕ)
    (bs : Bytes)
    → p.subscribers ≡ before ++ ((name, s) ∷ later)
    → is_feedback (b ∷ bs) ≡ false
    → (handed : List (ℕ × Bytes)) × (deliver_video_data deliver p (b ∷ bs)
        ≡ some (record p { sent_packets = (p.sent_packets + 1) % 2 ^ 32 }, to_subscribers handed))
      × (map (λ (h : ℕ × Bytes). h.0) handed ≡ map sink_of p.subscribers)
      × (handed
          ≡ fan_out deliver before (b ∷ bs)
            ++ ((s, left_by deliver before (b ∷ bs))
                ∷ fan_out deliver later (deliver s (left_by deliver before (b ∷ bs)))))
unfolding deliver_video_data fan_out
deliver_video_data_handed deliver p before later name s b bs e f = (
  fan_out deliver p.subscribers (b ∷ bs),
  ground (arith, ap no_subscribers e ∙ some_subscriber before later name s, f),
  map_sink-fan_out deliver p.subscribers (b ∷ bs),
  rw e (fan_out-append deliver before ((name, s) ∷ later) (b ∷ bs)),
)
