-- ===== src/Pages/Edit/Visit.antt =====
-- The life of an edit page of a codepad (`ngOnInit`, `onDidMount`, `connectCodepadService` and
-- `ngOnDestroy` in pages/codepad/pages/edit/codepad-edit.component.ts) with the connection that it
-- shares with the pages before and after it, and with the channels of its terminal.
-- Closures, pages and terminals stand by numbers.
pub mod Mounting
pub mod Tidy
pub mod Attaching
pub mod Fresh
pub mod Losing
pub mod Turning
pub mod Orderly
pub mod Connecting
pub mod Histories
mod Tests
use editor_sh.Prelude.{
  ℕ, ◌+◌, String, Bool, true, false, not, ◌&&◌, Option, none, some, List, [], ◌∷◌, ◌++◌, ◌==◌,
  length, if◌then◌else◌, foldl,
}
use editor_sh.Service.Endpoint.{Location}
use editor_sh.Service.Client.{ReadyState}
use editor_sh.Service.Message.Registry.{
  MessageListeners, no_listeners, add_message_listener, remove_message_listener,
}
use editor_sh.Store.Codepad.{ConnectStatus, status_eq}
use editor_sh.Pages.Edit.Channels.{Attachment, terminado_detach, tell}
use editor_sh.Store.Codepad.Connection.{
  Connection, status, Input, connect, disconnect, socket_failed, socket_ended, step,
}

-- What a page has to undo: two subscriptions to the store, and what `onCreated` pushes.
pub data Subscription : Type 0 where
  client_state language_state : Subscription
  dispatch_disconnect : Subscription
  remove_listener : (client listener : ℕ) → Subscription

pub record EditPage : Type 0 where
  pub editor_mounted : Bool
  pub terminal_mounted : Bool
  pub room_key : String
  pub subscriptions : List Subscription

-- `ngOnInit`, with the path of the route
unfoldable pub open_page : String → EditPage
open_page room_key = record {
  editor_mounted = false;
  terminal_mounted = false;
  room_key = room_key;
  subscriptions = [];
}

-- The page that is shown, the connection, the message listeners of each client, the clients whose
-- channel is attached to the terminal of the page, that terminal, the channels of all terminals in
-- the order of their attachment, and the number of closures made so far.
pub record Visit : Type 0 where
  pub page : EditPage
  pub conn : Connection
  pub messages : ℕ → MessageListeners
  pub attached : List ℕ
  pub terminal : ℕ
  pub attachments : List Attachment
  pub closures : ℕ

abbrev pub subscribe : List Subscription → Visit → Visit
subscribe ss v = record v { page = record v.page { subscriptions = v.page.subscriptions ++ ss } }

abbrev pub set_messages : ℕ → MessageListeners → Visit → Visit
set_messages c ls v = record v { messages = λ j. if j == c then ls else v.messages j }

-- `terminadoAttach`, of the terminal of the page and a channel to the client `c`
unfoldable pub terminado_attach : ℕ → Visit → Visit
unfolding add_message_listener
terminado_attach c v = record (set_messages c (add_message_listener v.closures (v.messages c)) v) {
  attached = v.attached ++ (c ∷ []);
  attachments =
      v.attachments ++ (record { terminal = v.terminal; client = c; listener = v.closures } ∷ []);
  closures = v.closures + 1;
}

-- `onClientStateChanged`
unfoldable pub on_client_state_changed : Visit → Visit
unfolding terminado_attach
on_client_state_changed v =
    if status_eq (status v.conn) ConnectStatus.connected
    then elim v.conn.current [ none ↦ v | some c ↦ terminado_attach c v ]
    else v

-- The client whose channels hear a socket event, once for each event that they listen to
abbrev pub hearing : Connection → Input → List ℕ
hearing conn (socket_failed c) = elim (conn.clients c).ready_state [
  | ReadyState.closed ↦ []
  | _ ↦ c ∷ c ∷ []
]
hearing conn (socket_ended c) = elim (conn.clients c).ready_state [
  | ReadyState.connecting ↦ []
  | ReadyState.closed ↦ []
  | _ ↦ c ∷ []
]
hearing conn _ = []

abbrev pub told : Input → Visit → ℕ → MessageListeners
told input v = foldl (tell v.attachments) v.messages (hearing v.conn input)

abbrev pub hears_client_state : List Subscription → Bool
hears_client_state [] = false
hears_client_state (client_state ∷ ss) = true
hears_client_state (_ ∷ ss) = hears_client_state ss

-- A step of the connection. The store tells a new client state to those who are subscribed; one
-- that is connected is new exactly if the state was not connected before.
unfoldable pub conn_step : Location → Input → Visit → Visit
unfolding on_client_state_changed terminado_detach
conn_step loc input v =
    let after = record v { conn = step loc v.conn input; messages = told input v } in
    if hears_client_state v.page.subscriptions
      && not (status_eq (status v.conn) ConnectStatus.connected)
    then on_client_state_changed after
    else after

-- `onCreated`, for the client `c`
unfoldable pub on_created : ℕ → Visit → Visit
unfolding add_message_listener
on_created c v =
    let edit = v.closures in
    let command = v.closures + 1 in
    let heard = add_message_listener command (add_message_listener edit (v.messages c)) in
    record (set_messages c heard (
      subscribe (dispatch_disconnect ∷ remove_listener c edit ∷ remove_listener c command ∷ [])
        v)) { closures = v.closures + 2 }

-- The client with which a step of the connection has called `onCreated`, if it has
abbrev pub newest : (before after : List (ℕ × ℕ)) → Option ℕ
newest before [] = none
newest before ((f, c) ∷ rest) = if length rest == length before then some c else none

abbrev pub called : Connection → Connection → Option ℕ
called before after = newest before.created after.created

abbrev pub call_back : Option ℕ → Visit → Visit
call_back none v = v
call_back (some c) v = on_created c v

-- `connectCodepadService`
unfoldable pub connect_codepad_service : Location → Visit → Visit
unfolding conn_step on_created
connect_codepad_service loc v =
    let after = conn_step loc (connect v.page.room_key (some 0)) v in
    call_back (called v.conn after.conn) after

-- The subscriptions to the store; a new one to the client state is told the present one.
unfoldable pub follow_store : Visit → Visit
unfolding on_client_state_changed
follow_store v =
    subscribe (language_state ∷ []) (on_client_state_changed (subscribe (client_state ∷ []) v))

-- `onDidMount`
unfoldable pub on_did_mount : Location → Visit → Visit
unfolding follow_store connect_codepad_service
on_did_mount loc v =
    if not v.page.editor_mounted
    then v
    else if not v.page.terminal_mounted
    then v
    else connect_codepad_service loc (follow_store v)

unfoldable pub on_editor_did_mount : Location → Visit → Visit
unfolding on_did_mount
on_editor_did_mount loc v =
    on_did_mount loc (record v { page = record v.page { editor_mounted = true } })

unfoldable pub on_terminal_did_mount : Location → Visit → Visit
unfolding on_did_mount
on_terminal_did_mount loc v =
    on_did_mount loc (record v { page = record v.page { terminal_mounted = true } })

-- `unsubscribe`, of one that `ngOnDestroy` goes through; those before it are undone already.
unfoldable pub unsubscribe : Location → Visit → Subscription → Visit
unfolding remove_message_listener
unsubscribe loc v client_state = v
unsubscribe loc v language_state = v
unsubscribe loc v dispatch_disconnect = record v { conn = step loc v.conn disconnect }
unsubscribe loc v (remove_listener c listener) =
    set_messages c (remove_message_listener listener (v.messages c)) v

-- `ngOnDestroy`
unfoldable pub on_destroy : Location → Visit → Visit
unfolding unsubscribe
on_destroy loc v =
    let after = foldl (unsubscribe loc) v v.page.subscriptions in
    record after { page = record after.page { subscriptions = [] } }

-- Another page takes the place of one that was destroyed; its terminal is a new one.
abbrev pub turn_to : String → Visit → Visit
turn_to room_key v = record v {
  page = open_page room_key;
  attached = [];
  terminal = v.terminal + 1;
}

-- Both parts of a page are mounted, in either order.
abbrev pub mount : Bool → Location → Visit → Visit
mount editor_first loc v =
    if editor_first
    then on_terminal_did_mount loc (on_editor_did_mount loc v)
    else on_editor_did_mount loc (on_terminal_did_mount loc v)
