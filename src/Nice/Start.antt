-- ===== src/Nice/Start.antt =====
-- src/erizo/NiceConnection.cpp: `init`, the destructor and `cb_nice_recv`. What libnice and GLib are
-- asked to do is a list of calls; the agent's new stream is what `nice_agent_add_stream` returns.
use erizo.Base.{
  ℕ, Bool, true, false, not, ◌&&◌, List, [], ◌∷◌, ◌++◌, Option, none, some, Bytes, ◌==◌, ltb,
  if◌then◌else◌, map,
}
use erizo.Sdp.Types.{is_media, audio_type}
use erizo.Nice.Connection.{
  IceState, nice_initial, nice_finished, NiceEvent, NiceConnection, update_ice_state, close,
}

-- `stunServ_`, `stunPort_`, `turnCredID_` and `turnCredPass_`
pub record Servers : Type 0 where
  pub stun_server : Bytes
  pub stun_port : ℕ
  pub cred_id : Bytes
  pub cred_pass : Bytes

pub data AgentCall : Type 0 where
  -- an event of the connection itself
  own : NiceEvent → AgentCall
  main_loop_new agent_new connect_signals main_loop_run : AgentCall
  set_controlling : Bool → AgentCall
  set_stun_server : Bytes → AgentCall
  set_stun_server_port : ℕ → AgentCall
  add_stream : ℕ → AgentCall
  set_relay_info : ℕ → ℕ → Bytes → ℕ → Bytes → Bytes → AgentCall
  set_stream_name : ℕ → Bytes → AgentCall
  attach_recv : ℕ → ℕ → AgentCall
  gather_candidates : ℕ → AgentCall
  agent_unref main_loop_unref : AgentCall

-- NICE_COMPONENT_TYPE_RTP and NICE_COMPONENT_TYPE_RTCP
abbrev pub component_rtp : ℕ
component_rtp = 1

abbrev pub component_rtcp : ℕ
component_rtcp = 2

-- The texts `audio` and `video`
abbrev pub audio_name : Bytes
audio_name = 97 ∷ 117 ∷ 100 ∷ 105 ∷ 111 ∷ []

abbrev pub video_name : Bytes
video_name = 118 ∷ 105 ∷ 100 ∷ 101 ∷ 111 ∷ []

abbrev is_empty : Bytes → Bool
is_empty [] = true
is_empty (b ∷ bs) = false

-- `! stunServ_.empty() && stunPort_ != 0`
unfoldable has_stun : Servers → Bool
has_stun s = not (is_empty s.stun_server) && not (s.stun_port == 0)

-- `init`, up to the run of the main loop.
unfoldable init : NiceConnection → Servers → ℕ → NiceConnection × List AgentCall
unfolding has_stun
init c s stream =
    let (c1, told) = update_ice_state c nice_initial in
    (
      record c1 { has_loop = true; has_agent = true; stream_id = stream },
      map own told
          ++ (main_loop_new ∷ agent_new ∷ set_controlling false ∷ [])
          ++ (if has_stun s
              then set_stun_server s.stun_server ∷ set_stun_server_port s.stun_port ∷ []
              else [])
          ++ (connect_signals ∷ add_stream c.ice_components ∷ [])
          ++ (if has_stun s && not (is_empty s.cred_id)
              then set_relay_info stream component_rtp s.stun_server s.stun_port s.cred_id
                  s.cred_pass
                ∷ []
              else [])
          ++ (set_stream_name stream
                (if is_media c.media_type audio_type then audio_name else video_name)
              ∷ attach_recv stream component_rtp
              ∷ gather_candidates stream
              ∷ [])
          ++ (if ltb 1 c.ice_components then attach_recv stream component_rtcp ∷ [] else [])
          ++ (main_loop_run ∷ []),
    )

-- `setNiceListener`; its callers pass themselves.
unfoldable set_nice_listener : NiceConnection → NiceConnection
set_nice_listener c = record c { has_listener = true }

-- `cb_nice_recv`: the listener is handed the component and the packet; without one it is undefined.
unfoldable nice_recv : NiceConnection → ℕ → Bytes → Option (ℕ × Bytes)
nice_recv c component_id buf = if c.has_listener then some (component_id, buf) else none

abbrev is_finished : IceState → Bool
is_finished nice_finished = true
is_finished _ = false

-- The destructor.
unfoldable destroy : NiceConnection → List AgentCall
destroy c =
    let (closed, events) = if not (is_finished c.ice_state) then close c else (c, []) in
    map own events
    ++ (if closed.has_agent then agent_unref ∷ [] else [])
    ++ (if closed.has_loop then main_loop_unref ∷ [] else [])
