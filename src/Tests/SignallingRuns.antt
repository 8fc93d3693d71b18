-- ===== src/Tests/SignallingRuns.antt =====
-- An observer that reads an offer.
use erizo.Base.{ℕ, pos, ◌≡◌, refl, true, [], ◌∷◌, some, Bytes, codes, arith, suc}
use erizo.Text.CString.{strstr, c_str}
use erizo.Text.Integers.{print_int}
use erizo.Signalling.Client.{Client, connected, new_client, written, split_message}
use erizo.Signalling.Frames.{frame}
use erizo.Signalling.Observer.{
  match_pattern, sdp_pattern, session_pattern, Receiver, Regex, Observer, create, turn,
}
use erizo.Signalling.Answers.{IsOnline, answer_to, told_of, turn_answers}

-- A receiver that counts its connections.
abbrev counter : Receiver ℕ
counter = record {
  create_publisher = λ r id. (suc r, true);
  create_subscriber = λ r id. (suc r, true);
  set_remote_sdp = λ r id sdp. r;
  get_local_sdp = λ r id. (r, codes "v=0\n");
  peer_disconnected = λ r id. r;
}

-- Patterns that match the whole message.
abbrev whole : Regex
whole = record { submatch = λ text pattern. some text; replace = λ text pattern new. text }

abbrev online : Client
online = record (new_client (codes "subscriber")) { has_callback = true; state = connected }

online-IsOnline : IsOnline online
unfolding new_client
online-IsOnline = record { callback = refl; in_state = refl; socket = refl }

abbrev observer : Observer
observer = record { name = codes "subscriber"; client = online }

abbrev offer : Bytes
offer = codes "OFFER;1"

offer_matched : (pattern : Bytes) → match_pattern whole offer pattern ≡ some offer
unfolding match_pattern c_str
offer_matched pattern = refl

offer_lem :
    (strstr offer (codes "OFFER") ≡ true)
    × ((create counter whole observer.name 0 (pos 7)).1 ≡ true)
unfolding strstr create
offer_lem = (refl, refl)

turn_answers_example :
    (out : Bytes) × (turn counter whole observer 0 (frame (codes "MSG_FROM_PEER") (pos 7) offer)
      ≡ some (
        observer,
        told_of counter whole (create counter whole observer.name 0 (pos 7)).0 (pos 7) offer,
        written out ∷ [],
      ))
    × (split_message out
        ≡ some (
          codes "MSG_TO_PEER",
          print_int (pos 7),
          answer_to counter whole (create counter whole observer.name 0 (pos 7)).0 (pos 7) offer,
        ))
turn_answers_example =
    turn_answers counter whole observer 0 (pos 7) offer offer offer online-IsOnline (omega arith)
      offer_lem.0 offer_lem.1 (offer_matched sdp_pattern) (offer_matched session_pattern)
