-- ===== src/Transport/Sdes/History.antt =====
-- SdesTransport.cpp: sequences of operations on a transport.
use erizo.Base.{ℕ, List, [], ◌∷◌, ◌++◌, Option, some, Bytes, ◌>>=◌}
use erizo.Srtp.{SrtpLibrary}
use erizo.Nice.Connection.{IceState, NiceConnection}
use erizo.Transport.Base.{TransportEvent}
use erizo.Transport.Sdes.{SdesTransport, sdes_ice_state, sdes_write, sdes_nice_data}

-- A change of the ICE connection, which runs on a thread of its own, its report of a state, a packet
-- to send, and a packet that arrived for a component.
pub data Action : Type 0 where
  ice_changes : NiceConnection → Action
  report : IceState → Action
  send : Bytes → Action
  packet : ℕ → Bytes → Action

module _ {S : Type 0} (lib : SrtpLibrary S) where
  unfoldable pub act : SdesTransport S → Action → Option (SdesTransport S × List TransportEvent)
  act t (ice_changes n) = some (record t { base = record t.base { nice_connection = n } }, [])
  act t (report state) = sdes_ice_state lib t state
  act t (send buf) = sdes_write lib t buf
  act t (packet component buf) = sdes_nice_data lib t component buf

  unfoldable pub run :
      SdesTransport S → List Action → Option (SdesTransport S × List TransportEvent)
  run t [] = some (t, [])
  run t (a ∷ actions) = do
    (t1, first) ← act t a
    (t2, rest) ← run t1 actions
    some (t2, first ++ rest)
