-- ===== src/Store/Codepad/Diagram.antt =====
-- The transition diagram of the connect status, and that the reducer follows it.
use editor_sh.Prelude.{ℕ, String, Bool, true, false, ◌||◌, Option, ◌≡◌, ◌⊎◌, inl, inr, refl}
use editor_sh.Store.Codepad.{
  CodepadAction, ConnectStatus, status_eq, ClientState, client_state_reducer,
}

-- An arrow for each change of status, labelled with the action that makes it.
pub data Edge : ConnectStatus → CodepadAction → ConnectStatus → Type 0 where
  start :
      (room : String) (f : Option ℕ)
      → Edge ConnectStatus.none (CodepadAction.connect room f) ConnectStatus.connecting
  restart :
      (room : String) (f : Option ℕ)
      → Edge ConnectStatus.closed (CodepadAction.connect room f) ConnectStatus.connecting
  fail : Edge ConnectStatus.connecting CodepadAction.connect_failure ConnectStatus.closed
  succeed : Edge ConnectStatus.connecting CodepadAction.connect_success ConnectStatus.connected
  give_up : Edge ConnectStatus.connecting CodepadAction.disconnect ConnectStatus.disconnecting
  leave : Edge ConnectStatus.connected CodepadAction.disconnect ConnectStatus.disconnecting
  close : (s : ConnectStatus) → Edge s CodepadAction.closed ConnectStatus.closed

abbrev pub HasEdge : ConnectStatus → CodepadAction → Type 0
HasEdge s a = (t : ConnectStatus) × Edge s a t

abbrev has_edge : ConnectStatus → CodepadAction → Bool
has_edge s (CodepadAction.connect r f) =
    status_eq s ConnectStatus.none || status_eq s ConnectStatus.closed
has_edge s CodepadAction.connect_failure = status_eq s ConnectStatus.connecting
has_edge s CodepadAction.connect_success = status_eq s ConnectStatus.connecting
has_edge s CodepadAction.disconnect =
    status_eq s ConnectStatus.connecting || status_eq s ConnectStatus.connected
has_edge s CodepadAction.closed = true
has_edge _ _ = false

Edge-has_edge : {s t : ConnectStatus} {a : CodepadAction} → Edge s a t → has_edge s a ≡ true
Edge-has_edge (start _ _) = refl
Edge-has_edge (restart _ _) = refl
Edge-has_edge fail = refl
Edge-has_edge succeed = refl
Edge-has_edge give_up = refl
Edge-has_edge leave = refl
Edge-has_edge (close s) = refl

-- Every action follows an arrow of the diagram, if there is one for it; if there is none, it leaves
-- the room and the status as they were.
pub client_state_reducer-Edge :
    (a : CodepadAction) (room : String) (s : ConnectStatus)
    → let state : ClientState = record { pad_hash = room; connect_status = s } in
      let after = client_state_reducer state a in
      Edge s a after.connect_status ⊎ ((after ≡ state) × (¬ HasEdge s a))
unfolding client_state_reducer
client_state_reducer-Edge (CodepadAction.connect r f) room ConnectStatus.none = inl (start r f)
client_state_reducer-Edge (CodepadAction.connect r f) room ConnectStatus.closed = inl (restart r f)
client_state_reducer-Edge CodepadAction.connect_failure room ConnectStatus.connecting = inl fail
client_state_reducer-Edge CodepadAction.connect_success room ConnectStatus.connecting = inl succeed
client_state_reducer-Edge CodepadAction.disconnect room ConnectStatus.connecting = inl give_up
client_state_reducer-Edge CodepadAction.disconnect room ConnectStatus.connected = inl leave
client_state_reducer-Edge CodepadAction.closed room s = inl (close s)
client_state_reducer-Edge _ _ _ = inr (refl, λ (t, e). cc (Edge-has_edge e))
