-- ===== src/Nice/Candidates.antt =====
-- src/erizo/NiceConnection.cpp: `setRemoteCandidates` and `cb_candidate_gathering_done`.
use erizo.Base.{
  ℕ, zero, suc, ◌+◌, Bool, not, ◌||◌, List, [], ◌∷◌, ◌++◌, Option, none, some, Bytes, codes, ◌==◌,
  equal, if◌then◌else◌,
}
use erizo.Sdp.Types.{HostType, host, srlfx, prflx, relay, CandidateInfo, new_candidate, is_media}
use erizo.Text.CString.{strstr}
use erizo.Nice.Connection.{
  NiceConnection, NiceCandidate, NiceCandidateType, type_host, type_server_reflexive,
  type_peer_reflexive, type_relayed, NiceEvent, set_remote, nice_candidates_received,
  nice_candidates_gathered, update_ice_state,
}

-- `NICE_COMPONENT_TYPE_RTP` of libnice
abbrev pub nice_component_type_rtp : ℕ
nice_component_type_rtp = 1

unfoldable pub nice_type : HostType → NiceCandidateType
nice_type host = type_host
nice_type srlfx = type_server_reflexive
nice_type prflx = type_peer_reflexive
nice_type relay = type_relayed

-- Whether the loop passes a candidate over with `continue`.
unfoldable pub passed_over : NiceConnection → ℕ → CandidateInfo → Bool
passed_over c comp_id info =
    not (is_media info.media_type c.media_type)
    || not (equal c.transport_name info.trans_protocol)
    || not (info.component_id == comp_id)

-- What is written into libnice's candidate. A foundation of 33 bytes or more, which `sprintf` writes past
-- the end of its array, is kept as it is here.
unfoldable pub nice_candidate : NiceConnection → CandidateInfo → NiceCandidate
unfolding nice_type
nice_candidate c info = record {
  type = nice_type info.host_type;
  address = info.host_address;
  port = info.host_port;
  foundation = info.foundation;
  username = info.username;
  password = info.password;
  stream_id = c.stream_id;
  component_id = info.component_id;
  priority = info.priority;
}

-- The inner loop: `candList` grows at its end.
unfoldable pub cand_list :
    NiceConnection → ℕ → List NiceCandidate → List CandidateInfo → List NiceCandidate
cand_list c comp_id acc [] = acc
cand_list c comp_id acc (info ∷ infos) =
    cand_list c comp_id
      (if passed_over c comp_id info then acc else acc ++ (nice_candidate c info ∷ [])) infos

-- The outer loop, for `rounds` components from `comp_id` on.
unfoldable pub set_components : NiceConnection → ℕ → ℕ → List CandidateInfo → List NiceEvent
set_components c zero comp_id infos = []
set_components c (suc rounds) comp_id infos =
    set_remote nice_component_type_rtp comp_id (cand_list c comp_id [] infos)
    ∷ set_components c rounds (comp_id + 1) infos

-- `setRemoteCandidates`
unfoldable pub set_remote_candidates :
    NiceConnection → List CandidateInfo → NiceConnection × List NiceEvent
unfolding set_components update_ice_state
set_remote_candidates c infos =
    let done = update_ice_state c nice_candidates_received in
    (done.0, set_components c c.ice_components 1 infos ++ done.1)

-- A local candidate as libnice gives it, its address as `nice_address_to_string` prints it.
pub record LocalCandidate : Type 0 where
  pub type : NiceCandidateType
  pub address : Bytes
  pub port : ℕ
  pub foundation : Bytes
  pub component_id : ℕ
  pub priority : ℕ

unfoldable pub host_type_of_nice : NiceCandidateType → HostType
host_type_of_nice type_host = host
host_type_of_nice type_server_reflexive = srlfx
host_type_of_nice type_peer_reflexive = prflx
host_type_of_nice type_relayed = relay

unfoldable pub gathered_info : NiceConnection → Bytes → Bytes → LocalCandidate → CandidateInfo
unfolding host_type_of_nice
gathered_info c ufrag upass cand = record new_candidate {
  component_id = cand.component_id;
  foundation = cand.foundation;
  priority = cand.priority;
  host_address = cand.address;
  host_port = cand.port;
  media_type = c.media_type;
  host_type = host_type_of_nice cand.type;
  net_protocol = codes "udp";
  trans_protocol = c.transport_name;
  username = ufrag;
  password = upass;
}

-- The inner loop of `cb_candidate_gathering_done`: an address with a colon is IPv6 and is ignored.
unfoldable pub gather : NiceConnection → Bytes → Bytes → List LocalCandidate → NiceConnection
gather c ufrag upass [] = c
gather c ufrag upass (cand ∷ cands) =
    gather
      (if strstr cand.address (codes ":") then c else record c {
        local_candidates = c.local_candidates ++ (gathered_info c ufrag upass cand ∷ []);
      })
      ufrag upass cands

-- The outer loop: the lists of the components 1, 2, … up to the first empty one.
unfoldable pub gather_all :
    NiceConnection → Bytes → Bytes → List (List LocalCandidate) → NiceConnection
unfolding gather
gather_all c ufrag upass [] = c
gather_all c ufrag upass ([] ∷ lists) = c
gather_all c ufrag upass ((cand ∷ cands) ∷ lists) =
    gather_all (gather c ufrag upass (cand ∷ cands)) ufrag upass lists

abbrev gathered_or_exit :
    List CandidateInfo → NiceConnection → Option (NiceConnection × List NiceEvent)
gathered_or_exit [] c = none
gathered_or_exit (info ∷ infos) c = some (update_ice_state c nice_candidates_gathered)

-- `cb_candidate_gathering_done`; `none` is `exit(0)`, when nothing was gathered.
unfoldable pub candidate_gathering_done :
    NiceConnection
    → Bytes
    → Bytes
    → List (List LocalCandidate)
    → Option (NiceConnection × List NiceEvent)
unfolding gather_all update_ice_state
candidate_gathering_done c ufrag upass lists =
    let c' = gather_all c ufrag upass lists in gathered_or_exit c'.local_candidates c'
