-- ===== src/Store/Codepad/Connection.antt =====
-- The connection of the codepad: the effects of store/codepad/store/codepad.effect.ts over the
-- service and the sockets of shared/services/codepad/codepad.service.ts. The browser decides when
-- a socket fires its events: a history is a list of inputs, of dispatched actions and of events.
pub mod Listeners
pub mod Firing
pub mod Events
pub mod Endings
pub mod Silence
pub mod Stuck
pub mod Rest
mod Tests
use editor_sh.Prelude.{
  ℕ, ◌+◌, String, not, ◌&&◌, Option, List, [], ◌∷◌, ◌==◌, str_eq, foldl, if◌then◌else◌,
}
use editor_sh.Service.Endpoint.{Location, room_url}
use editor_sh.Service.Client.{
  ReadyState, EventType, listens_to, Callback, Client, no_client, is_listening, add_listener,
  remove_listener, close_socket,
}
use editor_sh.Store.Codepad.{
  CodepadAction, ConnectStatus, status_eq, ClientState, initial_client_state, client_state_reducer,
}

-- What is thrown inside an effect: it ends that run of the effect, and is reported.
pub data Fault : Type 0 where
  close_current_first no_current_client : Fault

-- The clients by number, of which `count` have been made; `current` is `_currentClient`. A
-- number at `count` or above stands for no client yet: such a slot is closed. `created` and
-- `faults` record, latest first, the calls of `onCreated` and what was thrown.
pub record Connection : Type 0 where
  pub client_state : ClientState
  pub clients : ℕ → Client
  pub count : ℕ
  pub current : Option ℕ
  pub runs : ℕ
  pub created : List (ℕ × ℕ)
  pub faults : List Fault

abbrev pub start : Connection
start = record {
  client_state = initial_client_state;
  clients = λ _. no_client;
  count = 0;
  current = Option.none;
  runs = 0;
  created = [];
  faults = [];
}

abbrev pub status : Connection → ConnectStatus
status conn = conn.client_state.connect_status

abbrev pub reduce : CodepadAction → Connection → Connection
reduce a conn = record conn { client_state = client_state_reducer conn.client_state a }

abbrev pub throw_fault : Fault → Connection → Connection
throw_fault e conn = record conn { faults = e ∷ conn.faults }

abbrev pub update_client : ℕ → Client → Connection → Connection
update_client c client conn = record conn {
  clients = λ j. if j == c then client else conn.clients j;
}

-- `createClient` for a room with no current client: the new one becomes the current one, and
-- the service listens to its closing.
unfoldable pub make_client : Location → String → Connection → Connection
make_client loc room_key conn =
    record (update_client conn.count
      (record {
        room_key = room_key;
        endpoint_url = room_url loc room_key;
        ready_state = ReadyState.connecting;
        listeners = Callback.on_client_closed ∷ [];
      })
      conn) { count = conn.count + 1; current = Option.some conn.count }

-- `createClient`: the client, or `none` where it throws since another room is current.
unfoldable pub create_client : Location → String → Connection → Connection × Option ℕ
unfolding make_client
create_client loc room_key conn = elim conn.current [
  | Option.some c ↦
      if str_eq (conn.clients c).room_key room_key
      then (conn, Option.some c)
      else (throw_fault close_current_first conn, Option.none)
  | Option.none ↦ (make_client loc room_key conn, Option.some conn.count)
]

-- The listeners of one run of the connect effect.
unfoldable pub listen : ℕ → Connection → Connection
listen c conn =
    let client = conn.clients c in
    let fs = add_listener (Callback.on_open conn.runs) client.listeners in
    let gs = add_listener (Callback.on_error conn.runs) fs in
    record (update_client c
      (record client { listeners = add_listener (Callback.on_close conn.runs) gs }) conn) {
        runs = conn.runs + 1;
      }

abbrev pub call_created : Option ℕ → ℕ → Connection → Connection
call_created Option.none c conn = conn
call_created (Option.some f) c conn = record conn { created = (f, c) ∷ conn.created }

abbrev listen_to_client : Option ℕ → Connection × Option ℕ → Connection
listen_to_client on_created (conn, Option.none) = conn
listen_to_client on_created (conn, Option.some c) = call_created on_created c (listen c conn)

-- `connectAction$`, after the reducer
unfoldable pub connect_effect : Location → String → Option ℕ → Connection → Connection
unfolding create_client listen
connect_effect loc room_key on_created conn =
    if not (status_eq (status conn) ConnectStatus.connecting)
    then conn
    else listen_to_client on_created (create_client loc room_key conn)

-- `disconnectAction$`, after the reducer
unfoldable pub disconnect_effect : Connection → Connection
disconnect_effect conn =
    if not (status_eq (status conn) ConnectStatus.disconnecting) then conn else elim conn.current [
      | Option.none ↦ throw_fault no_current_client conn
      | Option.some c ↦ update_client c (close_socket (conn.clients c)) conn
    ]

-- Removes closures of a run from the client `c`.
abbrev remove_from : ℕ → List Callback → Connection → Connection
remove_from c fs conn =
    let client = conn.clients c in
    update_client c
      (record client { listeners = foldl (λ gs f. remove_listener f gs) client.listeners fs }) conn

-- One closure, called for an event of the client `c`.
unfoldable pub call : ℕ → Callback → Connection → Connection
call c (Callback.on_open r) conn =
    remove_from c (Callback.on_open r ∷ Callback.on_error r ∷ [])
      (reduce CodepadAction.connect_success conn)
call c (Callback.on_close r) conn =
    remove_from c (Callback.on_open r ∷ Callback.on_error r ∷ Callback.on_close r ∷ [])
      (reduce CodepadAction.closed conn)
call c (Callback.on_error r) conn =
    remove_from c (Callback.on_open r ∷ Callback.on_error r ∷ Callback.on_close r ∷ [])
      (reduce CodepadAction.connect_failure conn)
call c Callback.on_client_closed conn = elim conn.current [
  | Option.none ↦ throw_fault no_current_client conn
  | Option.some d ↦ record (remove_from d (Callback.on_client_closed ∷ []) conn) {
    current = Option.none;
  }
]

-- The browser calls what listens to the event, in order, but for what was removed meanwhile.
unfoldable pub fire_each : ℕ → EventType → List Callback → Connection → Connection
unfolding call
fire_each c t [] conn = conn
fire_each c t (f ∷ fs) conn =
    fire_each c t fs
      (if listens_to t f && is_listening f (conn.clients c).listeners then call c f conn else conn)

abbrev pub fire : ℕ → EventType → Connection → Connection
fire c t conn = fire_each c t (conn.clients c).listeners conn

abbrev pub set_ready : ℕ → ReadyState → Connection → Connection
set_ready c ready conn =
    let client = conn.clients c in update_client c (record client { ready_state = ready }) conn

-- What the page dispatches, and what the browser does to the socket of a client: it opens; its
-- connection fails, which fires `error` and then `close`; or it ends, which fires `close`.
pub data Input : Type 0 where
  connect : String → Option ℕ → Input
  disconnect : Input
  socket_opened socket_failed socket_ended : ℕ → Input

-- An event that the state of the socket rules out does not occur.
unfoldable pub step : Location → Connection → Input → Connection
unfolding connect_effect disconnect_effect fire_each
step loc conn (connect room_key on_created) =
    connect_effect loc room_key on_created (reduce (CodepadAction.connect room_key on_created) conn)
step loc conn disconnect = disconnect_effect (reduce CodepadAction.disconnect conn)
step loc conn (socket_opened c) = elim (conn.clients c).ready_state [
  | ReadyState.connecting ↦ fire c EventType.opened (set_ready c ReadyState.opened conn)
  | _ ↦ conn
]
step loc conn (socket_failed c) = elim (conn.clients c).ready_state [
  | ReadyState.closed ↦ conn
  | _ ↦ fire c EventType.close (fire c EventType.error (set_ready c ReadyState.closed conn))
]
step loc conn (socket_ended c) = elim (conn.clients c).ready_state [
  | ReadyState.connecting ↦ conn
  | ReadyState.closed ↦ conn
  | _ ↦ fire c EventType.close (set_ready c ReadyState.closed conn)
]

abbrev pub run : Location → Connection → List Input → Connection
run loc = foldl (step loc)
