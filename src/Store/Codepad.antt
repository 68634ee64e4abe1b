-- ===== src/Store/Codepad.antt =====
-- The codepad feature of the store (store/codepad/store): models, actions, reducers.
mod Tests
pub mod Diagram
pub mod Connection
pub mod Consistency
use editor_sh.Prelude.{ℕ, String, Bool, true, false, Option, ◌||◌, List, if◌then◌else◌}

pub record EditorUser : Type 0 where
  pub sid : ℕ
  pub name : String
  pub admin : Bool

pub record CodepadInitParams : Type 0 where
  pub language : Option String
  pub code : Option String
  pub users : Option (List EditorUser)
  pub sid : Option ℕ

-- The callback `onCreated` of `connect` is known by a number, as it is only called.
pub data CodepadAction : Type 0 where
  connect : String → Option ℕ → CodepadAction
  connect_failure : CodepadAction
  connect_success : CodepadAction
  load : CodepadAction
  load_failure : String → CodepadAction
  load_success : CodepadInitParams → CodepadAction
  disconnect : CodepadAction
  closed : CodepadAction
  language_changed : String → CodepadAction

pub data ConnectStatus : Type 0 where
  none connecting connected disconnecting closed : ConnectStatus

-- `===` on statuses
abbrev pub status_eq : ConnectStatus → ConnectStatus → Bool
status_eq ConnectStatus.none ConnectStatus.none = true
status_eq ConnectStatus.connecting ConnectStatus.connecting = true
status_eq ConnectStatus.connected ConnectStatus.connected = true
status_eq ConnectStatus.disconnecting ConnectStatus.disconnecting = true
status_eq ConnectStatus.closed ConnectStatus.closed = true
status_eq _ _ = false

pub record ClientState : Type 0 where
  pub pad_hash : String
  pub connect_status : ConnectStatus

abbrev pub initial_client_state : ClientState
initial_client_state = record { pad_hash = ""; connect_status = ConnectStatus.none }

unfoldable pub client_state_reducer : ClientState → CodepadAction → ClientState
client_state_reducer state (CodepadAction.connect pad_hash on_created) =
    if status_eq state.connect_status ConnectStatus.none
      || status_eq state.connect_status ConnectStatus.closed
    then record { pad_hash = pad_hash; connect_status = ConnectStatus.connecting }
    else state
client_state_reducer state CodepadAction.connect_failure =
    if status_eq state.connect_status ConnectStatus.connecting
    then record state { connect_status = ConnectStatus.closed }
    else state
client_state_reducer state CodepadAction.connect_success =
    if status_eq state.connect_status ConnectStatus.connecting
    then record state { connect_status = ConnectStatus.connected }
    else state
client_state_reducer state CodepadAction.disconnect =
    if status_eq state.connect_status ConnectStatus.connecting
      || status_eq state.connect_status ConnectStatus.connected
    then record state { connect_status = ConnectStatus.disconnecting }
    else state
client_state_reducer state CodepadAction.closed = record state {
  connect_status = ConnectStatus.closed;
}
client_state_reducer state _ = state

pub record EditorState : Type 0 where
  pub language : Option String
  pub users : Option (List EditorUser)
  pub sid : ℕ

abbrev pub initial_editor_state : EditorState
initial_editor_state = record { language = Option.none; users = Option.none; sid = 0 }

unfoldable pub editor_state_reducer : EditorState → CodepadAction → EditorState
editor_state_reducer state (CodepadAction.language_changed language) = record state {
  language = Option.some language;
}
editor_state_reducer state _ = state

pub record CodepadState : Type 0 where
  pub client_state : ClientState
  pub editor_state : EditorState

unfoldable pub codepad_state_reducer : CodepadState → CodepadAction → CodepadState
codepad_state_reducer state action = record {
  client_state = client_state_reducer state.client_state action;
  editor_state = editor_state_reducer state.editor_state action;
}
