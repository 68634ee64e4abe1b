-- ===== src/Service/Client.antt =====
-- A client of a room and its socket (shared/services/codepad/codepad.service.ts, `CodepadClient`):
-- the state of the socket and the closures that listen to its `open`, `error` and `close`.
use editor_sh.Prelude.{ℕ, String, Bool, true, false, ◌||◌, List, [], ◌∷◌, ◌==◌, if◌then◌else◌}

pub data ReadyState : Type 0 where
  connecting opened closing closed : ReadyState

pub data EventType : Type 0 where
  opened error close : EventType

-- The closures that listen: those of the connect effect, made anew by each run of it and known by
-- the number of the run, and the service's own, made once for each client.
pub data Callback : Type 0 where
  on_open on_close on_error : ℕ → Callback
  on_client_closed : Callback

-- The type of event for which a closure is registered: each only for one.
abbrev pub listens_to : EventType → Callback → Bool
listens_to EventType.opened (Callback.on_open r) = true
listens_to EventType.error (Callback.on_error r) = true
listens_to EventType.close (Callback.on_close r) = true
listens_to EventType.close Callback.on_client_closed = true
listens_to _ _ = false

abbrev pub callback_eq : Callback → Callback → Bool
callback_eq (Callback.on_open m) (Callback.on_open n) = m == n
callback_eq (Callback.on_close m) (Callback.on_close n) = m == n
callback_eq (Callback.on_error m) (Callback.on_error n) = m == n
callback_eq Callback.on_client_closed Callback.on_client_closed = true
callback_eq _ _ = false

-- A `CodepadClient` with its socket; the listeners stand in the order of their registration.
pub record Client : Type 0 where
  pub room_key : String
  pub endpoint_url : String
  pub ready_state : ReadyState
  pub listeners : List Callback

abbrev pub no_client : Client
no_client = record {
  room_key = "";
  endpoint_url = "";
  ready_state = ReadyState.closed;
  listeners = [];
}

unfoldable pub is_listening : Callback → List Callback → Bool
is_listening f [] = false
is_listening f (g ∷ fs) = callback_eq f g || is_listening f fs

unfoldable pub add_listener : Callback → List Callback → List Callback
add_listener f [] = f ∷ []
add_listener f (g ∷ fs) = if callback_eq f g then g ∷ fs else g ∷ add_listener f fs

unfoldable pub remove_listener : Callback → List Callback → List Callback
remove_listener f [] = []
remove_listener f (g ∷ fs) =
    if callback_eq f g then remove_listener f fs else g ∷ remove_listener f fs

-- `socket.close()`
abbrev pub closing_state : ReadyState → ReadyState
closing_state ReadyState.closed = ReadyState.closed
closing_state _ = ReadyState.closing

abbrev pub close_socket : Client → Client
close_socket client = record client { ready_state = closing_state client.ready_state }
