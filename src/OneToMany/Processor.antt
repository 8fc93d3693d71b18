-- ===== src/OneToMany/Processor.antt =====
-- src/erizo/OneToManyProcessor.h and .cpp. Sinks and the publisher are objects that others hold too,
-- so they live in a store, by number. `subscribers` is a `std::map`: a list in the order of its
-- keys. All subscribers are handed the same buffer, so what one writes the next one reads: a sink is
-- a function that gives the buffer as it leaves it. `none` is a call through a null pointer.
use erizo.Base.{
  length, ltb, ℕ, ◌+◌, ◌%◌, ◌^◌, Bool, true, false, ◌&&◌, ◌||◌, List, [], ◌∷◌, Option, none, some,
  Bytes, ◌==◌, equal, ltb, if◌then◌else◌, ◌>>=◌,
}
use erizo.Rtp.RtcpHeader
use erizo.Rtp.RtcpHeader.{rtcp_receiver_pt, rtcp_feedback_pt}

-- `std::string::operator<`
unfoldable pub less : Bytes → Bytes → Bool
less [] [] = false
less [] (y ∷ ys) = true
less (x ∷ xs) [] = false
less (x ∷ xs) (y ∷ ys) = ltb x y || (x == y && less xs ys)

-- What the processor uses of a `MediaSink`.
pub record Sink : Type 0 where
  pub audio_sink_ssrc : ℕ
  pub video_sink_ssrc : ℕ
  -- whether it has a feedback source, and whether that sends to the processor
  pub has_feedback_source : Bool
  pub feeds_back : Bool
  pub closed : Bool

-- What the processor uses of a `MediaSource`.
pub record Source : Type 0 where
  pub audio_source_ssrc : ℕ
  pub video_source_ssrc : ℕ
  pub has_feedback_sink : Bool
  pub muxed : Bool
  pub closed : Bool

abbrev pub Subscribers : Type 0
Subscribers = List (Bytes × ℕ)

pub record Processor : Type 0 where
  pub publisher : Option Source
  pub subscribers : Subscribers
  pub has_feedback_sink : Bool
  pub sent_packets : ℕ
  -- the store of sinks
  pub sinks : ℕ → Sink

unfoldable pub new_processor : (ℕ → Sink) → Processor
new_processor sinks = record {
  publisher = none;
  subscribers = [];
  has_feedback_sink = false;
  sent_packets = 0;
  sinks = sinks;
}

-- `subscribers.find(peerId)`
unfoldable pub find : Subscribers → Bytes → Option ℕ
find [] k = none
find ((j, s) ∷ m) k = if equal j k then some s else find m k

-- `subscribers[peerId] = sink`
unfoldable pub insert : Subscribers → Bytes → ℕ → Subscribers
insert [] k s = (k, s) ∷ []
insert ((j, t) ∷ m) k s =
    if equal j k
    then (j, s) ∷ m
    else if less k j
    then (k, s) ∷ (j, t) ∷ m
    else (j, t) ∷ insert m k s

-- `subscribers.erase(peerId)`
unfoldable pub erase : Subscribers → Bytes → Subscribers
erase [] k = []
erase ((j, t) ∷ m) k = if equal j k then m else (j, t) ∷ erase m k

abbrev pub update_sink : Processor → ℕ → (Sink → Sink) → Processor
update_sink p n f = record p { sinks = λ k. if k == n then f (p.sinks k) else p.sinks k }

-- `setPublisher`
unfoldable pub set_publisher : Processor → Source → Processor
set_publisher p source = record p {
  publisher = some (record source { muxed = true });
  has_feedback_sink = source.has_feedback_sink;
}

abbrev pub with_ssrcs : Source → Sink → Sink
with_ssrcs source sink = record sink {
  audio_sink_ssrc = source.audio_source_ssrc;
  video_sink_ssrc = source.video_source_ssrc;
}

abbrev joined : Source → Sink → Sink
joined source sink = record (with_ssrcs source sink) {
  feeds_back = if sink.has_feedback_source then true else sink.feeds_back;
}

-- `addSubscriber`; the publisher must be set.
unfoldable pub add_subscriber : Processor → ℕ → Bytes → Option Processor
add_subscriber p sink peer_id = do
  source ← p.publisher
  some (record (update_sink p sink (joined source)) {
    subscribers = insert p.subscribers peer_id sink;
  })

abbrev pub close_one : Sink → Sink
close_one sink = record sink { closed = true }

remove_found : Processor → Bytes → Option ℕ → Processor
remove_found p peer_id none = p
remove_found p peer_id (some sink) = record (update_sink p sink close_one) {
  subscribers = erase p.subscribers peer_id;
}

-- `removeSubscriber`: a subscriber is closed before it is erased.
unfoldable pub remove_subscriber : Processor → Bytes → Processor
unfolding remove_found
remove_subscriber p peer_id = remove_found p peer_id (find p.subscribers peer_id)

-- A loop over the subscribers, in the order of their keys.
unfoldable pub for_each : Subscribers → (Sink → Sink) → Processor → Processor
for_each [] f p = p
for_each ((k, s) ∷ m) f p = for_each m f (update_sink p s f)

-- `updateSsrcs`: with subscribers, the publisher must be set.
unfoldable pub update_ssrcs : Processor → Option Processor
unfolding for_each
update_ssrcs p = elim p.subscribers [
  | [] ↦ some p
  | x ∷ xs ↦ do source ← p.publisher; some (for_each (x ∷ xs) (with_ssrcs source) p)
]

-- `closeAll`, which `close` and `closeSink` call.
unfoldable pub close_all : Processor → Option Processor
unfolding for_each
close_all p = do
  source ← p.publisher
  some (record (for_each p.subscribers close_one p) {
    publisher = some (record source { closed = true });
  })

-- What a sink does with a packet: the buffer as it leaves it.
abbrev pub Deliver : Type 0
Deliver = ℕ → Bytes → Bytes

-- The packets that the subscribers are handed, in order. The buffer is one for all.
unfoldable pub fan_out : Deliver → Subscribers → Bytes → List (ℕ × Bytes)
fan_out deliver [] buf = []
fan_out deliver ((k, s) ∷ m) buf = (s, buf) ∷ fan_out deliver m (deliver s buf)

-- What a delivery hands on: to the subscribers, or to the publisher's feedback sink.
pub data Handed : Type 0 where
  to_subscribers : List (ℕ × Bytes) → Handed
  to_publisher : Bytes → Handed
  to_none : Handed

abbrev pub no_subscribers : Subscribers → Bool
no_subscribers [] = true
no_subscribers (x ∷ xs) = false

abbrev no_bytes : Bytes → Bool
no_bytes [] = true
no_bytes (b ∷ bs) = false

-- `deliverAudioData`
unfoldable pub deliver_audio_data : Deliver → Processor → Bytes → Handed
unfolding fan_out
deliver_audio_data deliver p buf =
    if no_subscribers p.subscribers || no_bytes buf
    then to_none
    else to_subscribers (fan_out deliver p.subscribers buf)

-- Feedback that came as video goes back under the publisher's SSRC. Its bytes 4 to 7 are written,
-- whatever its length.
unfoldable pub return_feedback : Processor → Bytes → Option (Processor × Handed)
return_feedback p buf =
    if p.has_feedback_sink
    then (do
      source ← p.publisher
      if ltb (length buf) 8
          then none
          else some (p, to_publisher (RtcpHeader.set_ssrc buf source.video_source_ssrc)))
    else some (p, to_none)

-- `deliverVideoData`
unfoldable pub deliver_video_data : Deliver → Processor → Bytes → Option (Processor × Handed)
unfolding fan_out return_feedback
deliver_video_data deliver p buf =
    if no_subscribers p.subscribers || no_bytes buf
    then some (p, to_none)
    else if RtcpHeader.packettype buf == rtcp_receiver_pt
        || RtcpHeader.packettype buf == rtcp_feedback_pt
    then return_feedback p buf
    else some (
      record p { sent_packets = (p.sent_packets + 1) % 2 ^ 32 },
      to_subscribers (fan_out deliver p.subscribers buf),
    )

-- `deliverFeedback`; the sink must be set.
unfoldable pub deliver_feedback : Processor → Bytes → Option Handed
deliver_feedback p buf = if p.has_feedback_sink then some (to_publisher buf) else none
