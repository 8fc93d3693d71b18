-- ===== src/Transport/Sdes/Keys.antt =====
-- SdesTransport.cpp: the keys of the two channels.
use erizo.Base.{List, ℕ, ◌≡◌, true, false, none, some, [], ◌∷◌, Bytes, arith}
use erizo.Rtp.RtcpHeader.{is_rtcp}
use erizo.Srtp.{SrtpLibrary, protect_rtcp, unprotect_rtp, unprotect_rtcp, new_channel}
use erizo.Nice.Connection.{nice_ready, is_nice_ready}
use erizo.Transport.Base.{TransportEvent, transport_ready, on_transport_data, fits_buffer}
use erizo.Transport.Sdes.{SdesTransport, sdes_ice_state, sdes_write, sdes_nice_data, sdes_set_keys}

module _ {S : Type 0} (lib : SrtpLibrary S) (t : SdesTransport S) where
  -- What a report that the ICE connection is ready leaves behind.
  record IsOpened (u : SdesTransport S) : Type 0 where
    state : u.state ≡ transport_ready
    mux : u.rtcp_mux ≡ t.rtcp_mux
    nice : u.nice_connection ≡ t.nice_connection
    fresh : t.rtcp_mux ≡ false → u.srtcp ≡ some new_channel

  ready-IsOpened :
      {u : SdesTransport S} {events : List TransportEvent}
      → sdes_ice_state lib t nice_ready ≡ some (u, events)
      → IsOpened u
  unfolding sdes_ice_state sdes_set_keys
  ready-IsOpened {u} {events} e = record {
    state = ground arith;
    mux = ground arith;
    nice = ground arith;
    fresh = λ m. ground arith;
  }

  -- Without RTCP multiplexing, when the ICE connection of a transport is ready and has told it so, the
  -- first packet that it writes runs into undefined behaviour if it is RTCP: its channel has a null
  -- session (or the packet is larger than the buffer).
  pub sdes_write_rtcp_null :
      (buf : Bytes) {u : SdesTransport S} {events : List TransportEvent}
      → sdes_ice_state lib t nice_ready ≡ some (u, events)
      → t.rtcp_mux ≡ false
      → is_nice_ready t.nice_connection.ice_state ≡ true
      → is_rtcp buf ≡ true
      → sdes_write lib u buf ≡ none
  unfolding sdes_write protect_rtcp new_channel
  sdes_write_rtcp_null buf {u} e m r c =
      let h = ready-IsOpened e in ground (arith, h.state, h.mux, h.nice, h.fresh m, m, r, c)

  -- Without RTCP multiplexing, when the ICE connection of a transport has told it that it is ready, the
  -- first packet of component 2 runs into undefined behaviour if it is RTCP: its channel has a null
  -- session (or the packet is larger than the buffer).
  sdes_read_rtcp_null :
      (buf : Bytes) {u : SdesTransport S} {events : List TransportEvent}
      → sdes_ice_state lib t nice_ready ≡ some (u, events)
      → t.rtcp_mux ≡ false
      → is_rtcp buf ≡ true
      → sdes_nice_data lib u 2 buf ≡ none
  unfolding sdes_nice_data unprotect_rtcp new_channel
  sdes_read_rtcp_null buf {u} e m c =
      let h = ready-IsOpened e in ground (arith, h.state, h.fresh m, c)

  -- Without RTCP multiplexing, when the ICE connection of a transport has told it that it is ready, a
  -- packet of component 2 that is not RTCP, is not empty and fits the buffer is handed on as it
  -- arrived: no key is asked for it.
  pub sdes_read_open :
      (b : ℕ) (buf : Bytes) {u : SdesTransport S} {events : List TransportEvent}
      → sdes_ice_state lib t nice_ready ≡ some (u, events)
      → t.rtcp_mux ≡ false
      → is_rtcp (b ∷ buf) ≡ false
      → fits_buffer (b ∷ buf) ≡ true
      → sdes_nice_data lib u 2 (b ∷ buf) ≡ some (u, on_transport_data (b ∷ buf) ∷ [])
  unfolding sdes_nice_data unprotect_rtp new_channel
  sdes_read_open b buf {u} e m c f =
      let h = ready-IsOpened e in ground (arith, h.state, h.fresh m, c, f)
