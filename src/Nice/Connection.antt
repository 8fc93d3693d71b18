-- ===== src/Nice/Connection.antt =====
-- src/erizo/NiceConnection.h and NiceConnection.cpp: the state and its changes. A closed agent or
-- loop is a flag. `comp_state_list` is a map whose missing entries read as `NICE_INITIAL`.
use erizo.Base.{
  ℕ, zero, suc, ◌+◌, Bool, true, false, not, ◌&&◌, List, [], ◌∷◌, ◌++◌, Bytes, ◌==◌, if◌then◌else◌,
}
use erizo.Sdp.Types.{MediaType, CandidateInfo}

pub data IceState : Type 0 where
  nice_initial nice_candidates_gathered nice_candidates_received nice_ready nice_finished : IceState
  nice_failed : IceState

abbrev pub is_nice_ready : IceState → Bool
is_nice_ready nice_ready = true
is_nice_ready _ = false

-- `state >= NICE_CANDIDATES_GATHERED`
abbrev pub is_gathered : IceState → Bool
is_gathered nice_initial = false
is_gathered _ = true

-- The candidate type of libnice that `setRemoteCandidates` chooses.
pub data NiceCandidateType : Type 0 where
  type_host type_server_reflexive type_peer_reflexive type_relayed : NiceCandidateType

-- What `setRemoteCandidates` writes into a `NiceCandidate`.
pub record NiceCandidate : Type 0 where
  pub type : NiceCandidateType
  pub address : Bytes
  pub port : ℕ
  pub foundation : Bytes
  pub username : Bytes
  pub password : Bytes
  pub stream_id : ℕ
  pub component_id : ℕ
  pub priority : ℕ

pub data NiceEvent : Type 0 where
  -- `listener_->updateIceState(state, this)`
  notify : IceState → NiceEvent
  -- `nice_agent_set_remote_candidates(agent_, stream, component, candidates)`
  set_remote : ℕ → ℕ → List NiceCandidate → NiceEvent
  -- `nice_agent_send(agent_, stream, component, buf)`
  agent_send : ℕ → ℕ → Bytes → NiceEvent
  remove_stream : ℕ → NiceEvent
  loop_quit : NiceEvent

pub record NiceConnection : Type 0 where
  pub media_type : MediaType
  pub transport_name : Bytes
  pub ice_components : ℕ
  pub comp_state_list : List (ℕ × IceState)
  pub ice_state : IceState
  pub local_candidates : List CandidateInfo
  pub has_agent : Bool
  pub has_loop : Bool
  pub has_listener : Bool
  pub stream_id : ℕ

unfoldable pub comp_state : List (ℕ × IceState) → ℕ → IceState
comp_state [] k = nice_initial
comp_state ((j, s) ∷ m) k = if j == k then s else comp_state m k

unfoldable pub set_comp_state : List (ℕ × IceState) → ℕ → IceState → List (ℕ × IceState)
set_comp_state [] k s = (k, s) ∷ []
set_comp_state ((j, t) ∷ m) k s = if j == k then (j, s) ∷ m else (j, t) ∷ set_comp_state m k s

-- The components 1 to n, as the constructor sets them.
abbrev pub initial_states : ℕ → List (ℕ × IceState)
initial_states zero = []
initial_states (suc n) = initial_states n ++ ((suc n, nice_initial) ∷ [])

-- The constructor. It leaves `iceState` unset, which `start` sets before anything reads it.
unfoldable pub new_connection : MediaType → Bytes → ℕ → NiceConnection
new_connection media name components = record {
  media_type = media;
  transport_name = name;
  ice_components = components;
  comp_state_list = initial_states components;
  ice_state = nice_initial;
  local_candidates = [];
  has_agent = false;
  has_loop = false;
  has_listener = false;
  stream_id = 0;
}

-- `updateIceState`
unfoldable pub update_ice_state : NiceConnection → IceState → NiceConnection × List NiceEvent
update_ice_state c state =
    (record c { ice_state = state }, if c.has_listener then notify state ∷ [] else [])

-- The loop of `updateComponentState` over the components i to i + rounds - 1: whether none makes it
-- return.
unfoldable pub all_ready : List (ℕ × IceState) → ℕ → ℕ → Bool
all_ready m zero i = true
all_ready m (suc rounds) i = is_nice_ready (comp_state m i) && all_ready m rounds (i + 1)

-- `updateComponentState`
unfoldable pub update_component_state :
    NiceConnection → ℕ → IceState → NiceConnection × List NiceEvent
unfolding update_ice_state
update_component_state c comp_id state =
    let c' = record c { comp_state_list = set_comp_state c.comp_state_list comp_id state } in
    if is_nice_ready state && not (all_ready c'.comp_state_list c.ice_components 1)
    then (c', [])
    else update_ice_state c' state

-- `cb_component_state_changed`: the states of libnice that matter are READY and FAILED.
pub data ComponentState : Type 0 where
  component_ready component_failed component_other : ComponentState

unfoldable pub component_state_changed :
    NiceConnection → ℕ → ComponentState → NiceConnection × List NiceEvent
unfolding update_component_state
component_state_changed c comp_id component_ready = update_component_state c comp_id nice_ready
component_state_changed c comp_id component_failed = update_ice_state c nice_failed
component_state_changed c comp_id component_other = (c, [])

-- `close`
unfoldable pub close : NiceConnection → NiceConnection × List NiceEvent
close c = (
  record c { ice_state = nice_finished },
  (if c.has_agent then remove_stream c.stream_id ∷ [] else [])
      ++ (if c.has_loop then loop_quit ∷ [] else []),
)

-- `sendData`: nothing is sent before the connection is ready. The result is `nice_agent_send`'s.
unfoldable pub send_data : NiceConnection → ℕ → Bytes → List NiceEvent
send_data c comp_id buf =
    if is_nice_ready c.ice_state then agent_send c.stream_id comp_id buf ∷ [] else []
