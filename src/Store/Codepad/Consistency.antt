-- ===== src/Store/Codepad/Consistency.antt =====
-- What the state of the store, the service and the sockets have to do with each other between two
-- inputs.
pub mod Joins
pub mod Steps
pub mod Inputs
pub mod Sockets
pub mod Closings
pub mod Runs
use editor_sh.Prelude.{ℕ, Bool, true, false, Option, ◌≡◌, ◌⊎◌}
use editor_sh.Service.Client.{ReadyState, Callback}
use editor_sh.Store.Codepad.{ConnectStatus}
use editor_sh.Store.Codepad.Connection.{Connection, status}
use editor_sh.Store.Codepad.Connection.Firing.{hears}
use editor_sh.Store.Codepad.Connection.Events.{IsCurrent, OpensAlike, EndsAlike}

abbrev pub ready : ℕ → Connection → ReadyState
ready c conn = (conn.clients c).ready_state

abbrev pub InRoom : ℕ → Connection → Type 0
InRoom c conn = (conn.clients c).room_key ≡ conn.client_state.pad_hash

-- With a current client `c`, to whose end the run `r` of the connect effect listens, the store is
-- joining its room, in it or leaving it, as the socket is connecting, open or closing; and without
-- one it is idle, ended or stuck, which is to be leaving with nothing left to close.
pub data IsSettled (conn : Connection) : Type 0 where
  idle : status conn ≡ ConnectStatus.none → conn.current ≡ Option.none → IsSettled conn
  ended : status conn ≡ ConnectStatus.closed → conn.current ≡ Option.none → IsSettled conn
  stuck : status conn ≡ ConnectStatus.disconnecting → conn.current ≡ Option.none → IsSettled conn
  joining :
      (c r : ℕ)
      → status conn ≡ ConnectStatus.connecting
      → IsCurrent c r conn
      → hears (Callback.on_open r) c conn ≡ true
      → OpensAlike c conn
      → EndsAlike c conn
      → ready c conn ≡ ReadyState.connecting
      → InRoom c conn
      → IsSettled conn
  joined :
      (c r : ℕ)
      → status conn ≡ ConnectStatus.connected
      → IsCurrent c r conn
      → ((s : ℕ) → hears (Callback.on_error s) c conn ≡ false)
      → ready c conn ≡ ReadyState.opened
      → InRoom c conn
      → IsSettled conn
  leaving :
      (c r : ℕ)
      → status conn ≡ ConnectStatus.disconnecting
      → IsCurrent c r conn
      → ready c conn ≡ ReadyState.closing
      → IsSettled conn

-- At most one socket is not closed, that of the current client.
abbrev pub IsAlone : Connection → Type 0
IsAlone conn = (j : ℕ) → (ready j conn ≡ ReadyState.closed) ⊎ (conn.current ≡ Option.some j)

pub record IsConsistent (conn : Connection) : Type 0 where
  pub settled : IsSettled conn
  pub alone : IsAlone conn
