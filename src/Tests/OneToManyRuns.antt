-- ===== src/Tests/OneToManyRuns.antt =====
-- The fan-out of a room with two subscribers.
use erizo.Base.{
  List, ◌++◌, false, true, ℕ, ◌≡◌, refl, [], ◌∷◌, Option, none, some, Bytes, codes, map,
}
use erizo.Rtp.RtcpHeader
use erizo.OneToMany.Processor.{
  close_all, update_ssrcs, for_each, find, add_subscriber, fan_out, Deliver, to_subscribers,
  deliver_video_data, Processor, less,
}
use erizo.OneToMany.Subscribers.{IsOrdered}
use erizo.OneToMany.Fanout.{
  is_feedback, sink_of, left_by, deliver_video_data_handed, find-add_subscriber,
}
use erizo.OneToMany.Loops.{publisher_closed, close_all_closes}
use erizo.Tests.Fixtures.{room, rtp_packet}

room-IsOrdered : IsOrdered room.subscribers
unfolding less
room-IsOrdered = ((refl, tt), (tt, tt))

-- A sink that writes into the buffer.
abbrev stamping : Deliver
stamping s buf = s ∷ buf

abbrev careful : Deliver
careful s buf = buf

rtp_packet-is_feedback : is_feedback rtp_packet ≡ false
unfolding RtcpHeader.packettype
rtp_packet-is_feedback = refl

-- Bob's packet has been written into by Ann's sink.
deliver_video_data_handed_example :
    (handed : List (ℕ × Bytes)) × (deliver_video_data stamping room rtp_packet
      ≡ some (record room { sent_packets = 1 }, to_subscribers handed))
    × (map (λ (h : ℕ × Bytes). h.0) handed ≡ map sink_of room.subscribers)
    × (handed
        ≡ fan_out stamping ((codes "ann", 1) ∷ []) rtp_packet
          ++ ((2, left_by stamping ((codes "ann", 1) ∷ []) rtp_packet)
              ∷ fan_out stamping []
                  (stamping 2 (left_by stamping ((codes "ann", 1) ∷ []) rtp_packet))))
deliver_video_data_handed_example =
    deliver_video_data_handed stamping room ((codes "ann", 1) ∷ []) [] (codes "bob") 2 128 _ refl
      rtp_packet-is_feedback

abbrev with_carl : Option Processor
with_carl = add_subscriber room 3 (codes "carl")

abbrev carl_room : Processor
unfolding add_subscriber
carl_room = elim with_carl [ none ↦ room | some q ↦ q ]

with_carl_lem : with_carl ≡ some carl_room
unfolding add_subscriber carl_room
with_carl_lem = refl

find-add_subscriber_example : find carl_room.subscribers (codes "carl") ≡ some 3
find-add_subscriber_example = find-add_subscriber room 3 (codes "carl") (codes "carl") with_carl_lem

abbrev closed_room : Processor
unfolding close_all for_each
closed_room = elim (close_all room) [ none ↦ room | some q ↦ q ]

closed_room_lem : close_all room ≡ some closed_room
unfolding close_all for_each closed_room
closed_room_lem = refl

bob_found : find room.subscribers (codes "bob") ≡ some 2
unfolding find
bob_found = refl

close_all_closes_example :
    ((closed_room.sinks 2).closed ≡ true) × (publisher_closed closed_room.publisher ≡ true)
close_all_closes_example =
    close_all_closes room closed_room (codes "bob") 2 closed_room_lem bob_found

abbrev renamed_room : Processor
unfolding update_ssrcs for_each
renamed_room = elim (update_ssrcs room) [ none ↦ room | some q ↦ q ]

renamed_room_lem : update_ssrcs room ≡ some renamed_room
unfolding update_ssrcs for_each renamed_room
renamed_room_lem = refl
