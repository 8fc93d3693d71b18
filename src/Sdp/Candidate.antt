-- ===== src/Sdp/Candidate.antt =====
-- src/erizo/SdpInfo.cpp: `processCandidate`. `none` is undefined behaviour: a piece that the line
-- does not have is a null pointer, or one left from an earlier line.
use erizo.Base.{
  ℕ, Bool, true, false, not, ◌&&◌, Option, some, List, [], ◌∷◌, ◌++◌, Bytes, codes, ◌==◌, equal,
  get_elem?, if◌then◌else◌, ◌>>=◌,
}
use erizo.Text.Decimal.{parse_uint}
use erizo.Sdp.Types.{
  HostType, host, srlfx, prflx, relay, MediaType, CandidateInfo, new_candidate, SdpInfo,
}

-- The loop over `types_str`: the last index that fits, or 1111.
unfoldable pub type_index : Bytes → ℕ
type_index piece =
    if equal piece (codes "relay")
    then 3
    else if equal piece (codes "prflx")
    then 2
    else if equal piece (codes "srflx")
    then 1
    else if equal piece (codes "host")
    then 0
    else 1111

-- The `switch` on that index.
unfoldable pub host_type_of : ℕ → HostType
host_type_of type =
    if type == 0
    then host
    else if type == 1
    then srlfx
    else if type == 2
    then prflx
    else if type == 3
    then relay
    else host

abbrev pub add_candidate : SdpInfo → CandidateInfo → SdpInfo
add_candidate sdp cand = record sdp { candidate_vector = sdp.candidate_vector ++ (cand ∷ []) }

-- From `priority` on, behind the test of the protocol.
unfoldable pub candidate_address : List Bytes → CandidateInfo → Option CandidateInfo
candidate_address pieces cand = do
  priority ← get_elem? pieces 3
  address ← get_elem? pieces 4
  port ← get_elem? pieces 5
  some (record cand {
    priority = parse_uint priority;
    host_address = address;
    host_port = parse_uint port;
  })

-- `if (type == 3)`
unfoldable pub candidate_relay : List Bytes → ℕ → CandidateInfo → Option CandidateInfo
candidate_relay pieces type cand =
    if type == 3
    then (do
      address ← get_elem? pieces 8
      port ← get_elem? pieces 9
      some (record cand { relay_address = address; relay_port = some (parse_uint port) }))
    else some cand

unfoldable pub candidate_type : List Bytes → SdpInfo → CandidateInfo → Option (SdpInfo × Bool)
candidate_type pieces sdp cand = do
  name ← get_elem? pieces 7
  done ←
      candidate_relay pieces (type_index name)
        (record cand { host_type = host_type_of (type_index name) })
  some (add_candidate sdp done, true)

unfoldable pub candidate_body : List Bytes → SdpInfo → CandidateInfo → Option (SdpInfo × Bool)
candidate_body pieces sdp cand = do
  addressed ← candidate_address pieces cand
  typ ← get_elem? pieces 6
  if not (equal typ (codes "typ")) then some (sdp, false) else candidate_type pieces sdp addressed

unfoldable pub process_candidate : List Bytes → MediaType → SdpInfo → Option (SdpInfo × Bool)
process_candidate pieces media sdp = do
  foundation ← get_elem? pieces 0
  component ← get_elem? pieces 1
  protocol ← get_elem? pieces 2
  let cand = record new_candidate {
    media_type = media;
    foundation = foundation;
    component_id = parse_uint component;
    net_protocol = protocol;
  }
  if not (equal protocol (codes "UDP")) && not (equal protocol (codes "udp"))
      then some (sdp, false)
      else candidate_body pieces sdp cand
