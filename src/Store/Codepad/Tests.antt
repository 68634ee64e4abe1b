-- ===== src/Store/Codepad/Tests.antt =====
-- Inputs for the transition diagram of the connect status.
use editor_sh.Prelude.{◌≡◌, ◌⊎◌}
use editor_sh.Store.Codepad.{CodepadAction, ConnectStatus, ClientState, client_state_reducer}
use editor_sh.Store.Codepad.Diagram.{Edge, HasEdge, client_state_reducer-Edge}

abbrev joining_room : ClientState
joining_room = record { pad_hash = "abc"; connect_status = ConnectStatus.connecting }

client_state_reducer-Edge_example :
    Edge ConnectStatus.connecting CodepadAction.disconnect
      (client_state_reducer joining_room CodepadAction.disconnect).connect_status
    ⊎ ((client_state_reducer joining_room CodepadAction.disconnect ≡ joining_room)
        × (¬ HasEdge ConnectStatus.connecting CodepadAction.disconnect))
client_state_reducer-Edge_example =
    client_state_reducer-Edge CodepadAction.disconnect "abc" ConnectStatus.connecting
