-- ===== src/Tests/ConnectionRuns.antt =====
-- A connection with one video transport.
use erizo.Base.{
  List, take, drop, ◌+◌, ◌>>=◌, ℕ, ◌≡◌, ◌↔◌, refl, true, false, [], ◌∷◌, ◌++◌, none, some, Bytes,
  arith, is_some,
}
use erizo.Rtp.RedHeader
use erizo.Rtp.RtcpHeader.{is_rtcp, packettype}
use erizo.Sdp.Types.{SdpInfo, video_type}
use erizo.Sdp.Codecs.{new_sdp}
use erizo.Nice.Connection.{send_data}
use erizo.Transport.Base.{write_on_nice, transport_ready, transport_failed}
use erizo.Connection.State.{
  send_front, Connection, DataPacket, send_round, video_packet, audio_packet, initial, started,
  ready, update_state, next_state, store_state, hand_candidates, start_both, queue_data,
}
use erizo.Rtp.RtpHeader
use erizo.Sdp.PtMap.{at}
use erizo.Connection.Lifetime.{opened, close, close_transports, destroy, round}
use erizo.Connection.Lifetime.Closing.{close-destroy, close_transports-round}
use erizo.Connection.Interleaving.{
  QueueStep, enqueue, send, interleave, queue_step, taken_by, interleave_fifo,
}
use erizo.Connection.StripRed.{strip_red_single}
use erizo.Connection.Operations.{Operation, queue, transport_state, run, apply}
use erizo.Connection.Negotiation.{new_connection}
use erizo.Connection.Bounded.{IsBounded}
use erizo.Connection.Bounded.Runs.{run-IsBounded}
use erizo.Connection.Media.{rtp_header_length, strip_red, write_ssrc, received_ssrc}
use erizo.Connection.Progress.{IsServed, update_state-ready, update_state-regress}
use erizo.Connection.Sending.{send_rounds, routed, all_routed, send_rounds_fifo}
use erizo.Connection.Packets.{received_ssrc-write_ssrc}
use erizo.Tests.Fixtures.{toy_lib, video_connection, rtp_packet}

abbrev video_only : SdpInfo
video_only = record new_sdp { has_video = true }

abbrev waiting : Connection ℕ
waiting = video_connection video_only transport_ready started

becomes_ready : (update_state waiting transport_ready true).0.global_state ≡ ready
unfolding update_state next_state store_state hand_candidates start_both new_sdp
becomes_ready = refl

update_state-ready_example :
    (transport_ready ≡ transport_ready)
    × (waiting.remote_sdp.has_audio ≡ true
        → IsServed waiting.audio_transport waiting.audio_source_ssrc)
    × (waiting.remote_sdp.has_video ≡ true
        → IsServed waiting.video_transport waiting.video_source_ssrc)
update_state-ready_example =
    update_state-ready waiting transport_ready true refl (λ e. cc) becomes_ready

update_state-regress_example :
    (update_state
      (video_connection video_only transport_failed ready)
      transport_failed
      true).0.global_state
    ≡ initial
update_state-regress_example =
    update_state-regress (video_connection video_only transport_failed ready) transport_failed true
      refl refl refl

rtp_packet_lem : is_rtcp rtp_packet ≡ false
unfolding is_rtcp packettype
rtp_packet_lem = refl

received_ssrc-write_ssrc_example : received_ssrc (write_ssrc rtp_packet 55543) ≡ 55543
received_ssrc-write_ssrc_example =
    received_ssrc-write_ssrc rtp_packet 55543 (omega arith) (omega arith) (λ e. cc rtp_packet_lem)

abbrev after_queue : Connection ℕ
unfolding queue_data
after_queue = elim (queue_data waiting 1 rtp_packet video_type) [ none ↦ waiting | some c ↦ c ]

after_queue_lem : queue_data waiting 1 rtp_packet video_type ≡ some after_queue
unfolding queue_data after_queue
after_queue_lem = refl

-- An RTP header with a RED header that no other follows.
abbrev red_packet : Bytes
red_packet = rtp_packet ++ (100 ∷ 1 ∷ 2 ∷ [])

abbrev loaded : Connection ℕ
loaded = record waiting {
  send_queue =
      record { comp = 1; payload = rtp_packet; kind = video_packet }
      ∷ record { comp = 2; payload = rtp_packet; kind = audio_packet }
      ∷ [];
}

send_rounds_fifo_example :
    send_rounds 2 loaded
    ≡ some (
      record loaded { send_queue = [] },
      all_routed loaded.video_transport loaded.audio_transport loaded.send_queue,
    )
send_rounds_fifo_example = send_rounds_fifo loaded refl refl

close-destroy_example : (is_some (do l ← close (opened waiting); destroy l) ≡ false) ↔ (true ≡ true)
close-destroy_example = close-destroy waiting

close_transports-round_example :
    (is_some (do l ← close_transports (opened loaded); round l) ≡ false) ↔ (false ≡ false)
close_transports-round_example = close_transports-round loaded refl refl

abbrev queued_packet : DataPacket
queued_packet = record { comp = 1; payload = rtp_packet; kind = video_packet }

abbrev one_in_one_out : List QueueStep
one_in_one_out = enqueue 1 rtp_packet video_type ∷ send ∷ []

one_in_one_out_lem :
    interleave loaded one_in_one_out
    ≡ some (
      record loaded {
        send_queue =
            record { comp = 2; payload = rtp_packet; kind = audio_packet } ∷ queued_packet ∷ [];
      },
      (
        routed loaded.video_transport loaded.audio_transport video_packet queued_packet,
        queued_packet ∷ [],
      ),
    )
unfolding interleave queue_step taken_by queue_data send_round send_front write_on_nice send_data
one_in_one_out_lem = refl

interleave_fifo_example :
    (sent : List DataPacket) × (routed loaded.video_transport loaded.audio_transport video_packet
        queued_packet
      ≡ all_routed loaded.video_transport loaded.audio_transport sent)
    × (sent ++ (record { comp = 2; payload = rtp_packet; kind = audio_packet } ∷ queued_packet ∷ [])
        ≡ loaded.send_queue ++ (queued_packet ∷ []))
interleave_fifo_example = interleave_fifo one_in_one_out loaded one_in_one_out_lem

red_packet_header : (rtp_header_length red_packet ≡ 12) × (RedHeader.follow red_packet 12 ≡ 0)
unfolding rtp_header_length RtpHeader.extension RedHeader.follow
red_packet_header = (refl, refl)

strip_red_single_example :
    (c : Connection ℕ) × (strip_red waiting red_packet
      ≡ some (
        c,
        RtpHeader.set_payloadtype
            (take (rtp_header_length red_packet) red_packet
              ++ drop (rtp_header_length red_packet + 1) red_packet)
            (at waiting.remote_sdp.in_out_pt_map
              (RedHeader.payloadtype red_packet (rtp_header_length red_packet))),
      ))
strip_red_single_example =
    strip_red_single waiting red_packet (omega (arith, red_packet_header.0)) (omega arith)
      (λ e. ground (arith, red_packet_header))

-- A packet is queued, and a report comes before the connection has transports.
abbrev first_steps : List (Operation ℕ)
first_steps = queue 1 rtp_packet video_type ∷ transport_state transport_failed true ∷ []

first_steps_lem :
    run toy_lib (new_connection 55543 44444 []) first_steps
    ≡ some (record (new_connection 55543 44444 []) { send_queue = queued_packet ∷ [] }, [])
unfolding run apply queue_data update_state new_connection
first_steps_lem = refl

run-IsBounded_example :
    IsBounded (record (new_connection {S = ℕ} 55543 44444 []) { send_queue = queued_packet ∷ [] })
run-IsBounded_example = run-IsBounded toy_lib 55543 44444 [] first_steps first_steps_lem
