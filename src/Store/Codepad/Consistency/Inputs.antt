-- ===== src/Store/Codepad/Consistency/Inputs.antt =====
-- What the events of a socket make of a connection, by the state of the socket.
use editor_sh.Prelude.{ℕ, ◌≡◌, ◌≢◌, refl, arith}
use editor_sh.Service.Endpoint.{Location}
use editor_sh.Service.Client.{ReadyState, EventType}
use editor_sh.Store.Codepad.Connection.{
  Connection, socket_opened, socket_failed, socket_ended, step, fire, set_ready,
}
use editor_sh.Store.Codepad.Consistency.{ready, IsConsistent}
use editor_sh.Store.Codepad.Consistency.Closings.{fail_socket, end_socket}

abbrev pub by_ready : ReadyState → (connecting live closed : Connection) → Connection
by_ready ReadyState.connecting x y z = x
by_ready ReadyState.closed x y z = z
by_ready _ x y z = y

pub opened_step :
    (loc : Location) (c : ℕ) (conn : Connection)
    → step loc conn (socket_opened c)
      ≡ by_ready
          (ready c conn)
          (fire c EventType.opened (set_ready c ReadyState.opened conn))
          conn
          conn
unfolding step
opened_step loc c conn = ground arith

pub failed_step :
    (loc : Location) (c : ℕ) (conn : Connection)
    → step loc conn (socket_failed c)
      ≡ by_ready (ready c conn) (fail_socket c conn) (fail_socket c conn) conn
unfolding step
failed_step loc c conn = ground arith

pub ended_step :
    (loc : Location) (c : ℕ) (conn : Connection)
    → step loc conn (socket_ended c) ≡ by_ready (ready c conn) conn (end_socket c conn) conn
unfolding step
ended_step loc c conn = ground arith

pub by_ready-IsConsistent :
    (s : ReadyState) (x y z : Connection)
    → (s ≡ ReadyState.connecting → IsConsistent x)
    → (s ≢ ReadyState.closed → IsConsistent y)
    → IsConsistent z
    → IsConsistent (by_ready s x y z)
by_ready-IsConsistent ReadyState.connecting x y z hx hy hz = hx refl
by_ready-IsConsistent ReadyState.opened x y z hx hy hz = hy (λ e. cc)
by_ready-IsConsistent ReadyState.closing x y z hx hy hz = hy (λ e. cc)
by_ready-IsConsistent ReadyState.closed x y z hx hy hz = hz
