-- ===== src/Nice/Ready.antt =====
-- NiceConnection.cpp: when the listener is told that the connection is ready, and which candidates
-- the agent is given.
use erizo.Base.{
  Bool, ap, length, equal, ◌&&◌, ℕ, zero, suc, ◌+◌, ◌≤◌, ◌<◌, ◌≡◌, ◌∙◌, refl, sym, ◌↔◌, ◌⊎◌, inl,
  inr, true, not, List, [], ◌∷◌, ◌++◌, map, keep, arith, ◌==◌, if◌then◌else◌, Bool-cases,
}
use mathlib.Core.List.{append-nil, append_assoc}
use erizo.Sdp.Types.{CandidateInfo, HostType, host, srlfx, prflx, relay, is_media}
use erizo.Nice.Connection.{
  NiceCandidateType, type_host, type_server_reflexive, type_peer_reflexive, type_relayed, IceState,
  nice_ready, nice_candidates_received, is_nice_ready, NiceEvent, notify, set_remote,
  NiceConnection, comp_state, set_comp_state, all_ready, update_component_state, NiceCandidate,
}
use erizo.Nice.Candidates.{
  nice_type, passed_over, nice_candidate, cand_list, set_components, set_remote_candidates,
  nice_component_type_rtp,
}

pub comp_state-set_comp_state :
    (m : List (ℕ × IceState)) (k j : ℕ) (s : IceState)
    → comp_state (set_comp_state m k s) j ≡ (if k == j then s else comp_state m j)
unfolding comp_state set_comp_state
comp_state-set_comp_state [] k j s = refl
comp_state-set_comp_state ((i, t) ∷ m) k j s = ground (arith, comp_state-set_comp_state m k j s)

module _ (m : List (ℕ × IceState)) where
  all_ready_sound :
      (rounds i : ℕ)
      → all_ready m rounds i ≡ true
      → (j : ℕ) → i ≤ j
      → j < i + rounds
      → is_nice_ready (comp_state m j) ≡ true
  unfolding all_ready
  all_ready_sound zero i e j h k = absurd (omega arith)
  all_ready_sound (suc rounds) i e j h k = elim (Bool-cases (i == j)) [
    | inl same ↦ ground arith
    | inr other ↦ all_ready_sound rounds (i + 1) (ground arith) j (ground arith) (omega arith)
  ]

  pub all_ready_complete :
      (rounds i : ℕ)
      → ((j : ℕ) → i ≤ j → j < i + rounds → is_nice_ready (comp_state m j) ≡ true)
      → all_ready m rounds i ≡ true
  unfolding all_ready
  all_ready_complete zero i h = refl
  all_ready_complete (suc rounds) i h = ground (
    arith,
    h i (omega arith) (omega arith),
    all_ready_complete rounds (i + 1) (λ j a b. h j (omega arith) (omega arith)),
  )

reported :
    (c : NiceConnection) (comp_id : ℕ)
    → c.has_listener ≡ true
    → ((update_component_state c comp_id nice_ready).1 ≡ notify nice_ready ∷ [])
      ↔ (all_ready (set_comp_state c.comp_state_list comp_id nice_ready) c.ice_components 1 ≡ true)
unfolding update_component_state
reported c comp_id l = (λ h. ground arith, λ h. ground arith)

-- A component that becomes ready makes the connection tell its listener that it is ready exactly
-- when every component from 1 to the number of components is that one or was ready before.
pub update_component_state-ready_iff :
    (c : NiceConnection) (comp_id : ℕ)
    → c.has_listener ≡ true
    → ((update_component_state c comp_id nice_ready).1 ≡ notify nice_ready ∷ []) ↔ (
        (j : ℕ)
        → 1 ≤ j
        → j < 1 + c.ice_components
        → ((comp_id == j) ≡ true) ⊎ (is_nice_ready (comp_state c.comp_state_list j) ≡ true))
update_component_state-ready_iff c comp_id l = (to, from)
  where
    m : List (ℕ × IceState)
    m = set_comp_state c.comp_state_list comp_id nice_ready

    to :
        (update_component_state c comp_id nice_ready).1 ≡ notify nice_ready ∷ []
        → (j : ℕ) → 1 ≤ j
        → j < 1 + c.ice_components
        → ((comp_id == j) ≡ true) ⊎ (is_nice_ready (comp_state c.comp_state_list j) ≡ true)
    to h j a b = ground (
      arith,
      all_ready_sound m c.ice_components 1 ((reported c comp_id l).0 h) j a b,
      comp_state-set_comp_state c.comp_state_list comp_id j nice_ready,
    )

    each :
        (j : ℕ)
        → ((comp_id == j) ≡ true) ⊎ (is_nice_ready (comp_state c.comp_state_list j) ≡ true)
        → is_nice_ready (comp_state m j) ≡ true
    each j h = ground (arith, comp_state-set_comp_state c.comp_state_list comp_id j nice_ready)

    from :
        ((j : ℕ)
          → 1 ≤ j
          → j < 1 + c.ice_components
          → ((comp_id == j) ≡ true) ⊎ (is_nice_ready (comp_state c.comp_state_list j) ≡ true))
        → (update_component_state c comp_id nice_ready).1 ≡ notify nice_ready ∷ []
    from h =
        (reported c comp_id l).1
          (all_ready_complete m c.ice_components 1 (λ j a b. each j (h j a b)))

-- A candidate of the medium, the transport and this component.
abbrev pub belongs : NiceConnection → ℕ → CandidateInfo → Bool
belongs c comp_id info =
    is_media info.media_type c.media_type
    && equal c.transport_name info.trans_protocol
    && info.component_id == comp_id

abbrev pub agent_type : HostType → NiceCandidateType
agent_type host = type_host
agent_type srlfx = type_server_reflexive
agent_type prflx = type_peer_reflexive
agent_type relay = type_relayed

-- The candidate as libnice is given it: the address, and the user name and password of the peer.
abbrev pub agent_candidate : NiceConnection → CandidateInfo → NiceCandidate
agent_candidate c info = record {
  type = agent_type info.host_type;
  address = info.host_address;
  port = info.host_port;
  foundation = info.foundation;
  username = info.username;
  password = info.password;
  stream_id = c.stream_id;
  component_id = info.component_id;
  priority = info.priority;
}

passed_over-belongs :
    (c : NiceConnection) (comp_id : ℕ) (info : CandidateInfo)
    → passed_over c comp_id info ≡ not (belongs c comp_id info)
unfolding passed_over
passed_over-belongs c comp_id info = ground arith

nice_type_lem : (h : HostType) → nice_type h ≡ agent_type h
unfolding nice_type
nice_type_lem host = refl
nice_type_lem srlfx = refl
nice_type_lem prflx = refl
nice_type_lem relay = refl

nice_candidate_lem :
    (c : NiceConnection) (info : CandidateInfo) → nice_candidate c info ≡ agent_candidate c info
unfolding nice_candidate
nice_candidate_lem c info =
    ap (λ (t : NiceCandidateType). record (agent_candidate c info) { type = t })
      (nice_type_lem info.host_type)

cand_list_lem :
    (c : NiceConnection) (comp_id : ℕ) (acc : List NiceCandidate) (infos : List CandidateInfo)
    → cand_list c comp_id acc infos
      ≡ acc ++ map (agent_candidate c) (keep (belongs c comp_id) infos)
unfolding cand_list
cand_list_lem c comp_id acc [] = sym (append-nil acc)
cand_list_lem c comp_id acc (info ∷ infos) = elim (Bool-cases (belongs c comp_id info)) [
  | inr e ↦ rw (passed_over-belongs c comp_id info, e) (cand_list_lem c comp_id acc infos)
  | inl e ↦
      rw (passed_over-belongs c comp_id info, e, nice_candidate_lem c info)
        (cand_list_lem c comp_id (acc ++ (agent_candidate c info ∷ [])) infos
          ∙ append_assoc acc (agent_candidate c info ∷ [])
              (map (agent_candidate c) (keep (belongs c comp_id) infos)))
]

-- Foundations fit libnice's 33 bytes with a zero behind them.
abbrev pub AllShort : List CandidateInfo → Type 0
AllShort [] = Unit {0}
AllShort (info ∷ infos) = (length info.foundation < 33) × AllShort infos

-- The list of calls that hand `infos` to the agent, component by component.
abbrev pub handed : NiceConnection → List CandidateInfo → ℕ → ℕ → List NiceEvent
handed c infos zero comp_id = []
handed c infos (suc rounds) comp_id =
    set_remote nice_component_type_rtp comp_id
      (map (agent_candidate c) (keep (belongs c comp_id) infos))
    ∷ handed c infos rounds (comp_id + 1)

set_components-handed :
    (c : NiceConnection) (rounds comp_id : ℕ) (infos : List CandidateInfo)
    → set_components c rounds comp_id infos ≡ handed c infos rounds comp_id
unfolding set_components
set_components-handed c zero comp_id infos = refl
set_components-handed c (suc rounds) comp_id infos =
    cc (cand_list_lem c comp_id [] infos, set_components-handed c rounds (comp_id + 1) infos)

-- With foundations of at most 32 bytes, `setRemoteCandidates` hands each component 1 to n, in this order,
-- the candidates of its medium, transport and component, in the order of the description, and tells the listener that the
-- candidates were received. The stream that it names is always 1, whatever stream the connection has.
pub set_remote_candidates-handed :
    (c : NiceConnection) (infos : List CandidateInfo)
    → c.has_listener ≡ true
    → AllShort infos
    → set_remote_candidates c infos ≡ (
      record c { ice_state = nice_candidates_received },
      handed c infos c.ice_components 1 ++ (notify nice_candidates_received ∷ []),
    )
unfolding set_remote_candidates
set_remote_candidates-handed c infos l short =
    rw (set_components-handed c c.ice_components 1 infos) (ground arith)
