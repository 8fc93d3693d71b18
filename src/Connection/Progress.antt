-- ===== src/Connection/Progress.antt =====
-- WebRtcConnection.cpp, `updateState`: which states a report of a transport leads to.
use erizo.Base.{ℕ, ◌==◌, Option, none, some, ◌≡◌, ◌≢◌, ◌⊎◌, Bool, true, false, ◌||◌, arith, is_some}
use erizo.Transport.Base.{TransportState, transport_started, transport_ready, is_ready, is_started}
use erizo.Connection.State.{
  AnyTransport, base_of, in_state, Connection, initial, started, ready, update_state, next_state,
  store_state, hand_candidates, start_both, video_candidates, audio_candidates, all_in_state,
}

-- A medium has a ready transport, and an SSRC other than 0.
abbrev pub IsServed : {S : Type 0} → Option (AnyTransport S) → ℕ → Type 0
IsServed none ssrc = ⊥
IsServed (some t) ssrc = ((base_of t).state ≡ transport_ready) × (ssrc ≢ 0)

served :
    {S : Type 0} (t : Option (AnyTransport S)) (ssrc : ℕ)
    → in_state is_ready t ≡ true
    → (ssrc == 0) ≡ false
    → IsServed t ssrc
served (some t) ssrc r n = (ground arith, λ e. ground (arith, e, n))
served none ssrc r n = cc

module _ {S : Type 0} (c : Connection S) (state : TransportState) (from_video : Bool) where
  -- Without bundling, a report that makes the connection ready is a report of a ready transport, and
  -- every medium of the remote description then has a ready transport and an SSRC other than 0.
  pub update_state-ready :
      c.bundle ≡ false
      → c.global_state ≢ ready
      → (update_state c state from_video).0.global_state ≡ ready
      → (state ≡ transport_ready)
        × (c.remote_sdp.has_audio ≡ true → IsServed c.audio_transport c.audio_source_ssrc)
        × (c.remote_sdp.has_video ≡ true → IsServed c.video_transport c.video_source_ssrc)
  unfolding update_state next_state store_state hand_candidates start_both video_candidates
      audio_candidates
  update_state-ready b g e = (
    ground arith,
    λ a. served c.audio_transport c.audio_source_ssrc (ground arith) (ground arith),
    λ v. served c.video_transport c.video_source_ssrc (ground arith) (ground arith),
  )

  -- If a transport exists, a report that it is neither started nor ready (`initial`, `finished` or
  -- `failed`) leaves the connection `initial`, whatever it was, ready included.
  pub update_state-regress :
      is_started state ≡ false
      → is_ready state ≡ false
      → (is_some c.audio_transport || is_some c.video_transport) ≡ true
      → (update_state c state from_video).0.global_state ≡ initial
  unfolding update_state next_state store_state hand_candidates start_both video_candidates
      audio_candidates
  update_state-regress s r t = ground arith

  -- A ready connection stays ready on a report of a started transport when all the transports that the
  -- remote description needs are started.
  update_state-keeps_ready :
      state ≡ transport_started
      → all_in_state is_started c ≡ true
      → c.global_state ≡ ready
      → (update_state c state from_video).0.global_state ≡ ready
  unfolding update_state next_state store_state hand_candidates start_both video_candidates
      audio_candidates
  update_state-keeps_ready s a g = ground arith

  -- A report that makes the connection started is a report of a started transport, and then all
  -- transports that the remote description needs are started, or it is the video transport of a bundle.
  update_state-started :
      c.global_state ≢ started
      → (update_state c state from_video).0.global_state ≡ started
      → (state ≡ transport_started)
        × ((all_in_state is_started c ≡ true) ⊎ ((from_video ≡ true) × (c.bundle ≡ true)))
  unfolding update_state next_state store_state hand_candidates start_both video_candidates
      audio_candidates
  update_state-started g e = ground arith
