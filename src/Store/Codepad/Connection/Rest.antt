-- ===== src/Store/Codepad/Connection/Rest.antt =====
-- What the sockets can do to a store that neither joins a room nor is in one.
use editor_sh.Prelude.{ℕ, Bool, true, false, List, ◌≡◌, refl, ◌∙◌, arith}
use editor_sh.Service.Endpoint.{Location}
use editor_sh.Service.Client.{EventType, Callback, ReadyState}
use editor_sh.Store.Codepad.{ConnectStatus, client_state_reducer}
use editor_sh.Store.Codepad.Connection.{
  Connection, status, Input, connect, disconnect, socket_opened, socket_failed, socket_ended, step,
  call, fire, set_ready, disconnect_effect,
}
use editor_sh.Store.Codepad.Connection.Firing.{fire_each-keeps}
use editor_sh.Store.Codepad.Consistency.{ready}
use editor_sh.Store.Codepad.Consistency.Inputs.{by_ready, opened_step, failed_step, ended_step}

-- Joining a room, or in one
abbrev pub is_busy : ConnectStatus → Bool
is_busy ConnectStatus.connecting = true
is_busy ConnectStatus.connected = true
is_busy _ = false

abbrev pub is_socket_event : Input → Bool
is_socket_event (socket_opened c) = true
is_socket_event (socket_failed c) = true
is_socket_event (socket_ended c) = true
is_socket_event _ = false

call-created : (c : ℕ) (f : Callback) (conn : Connection) → (call c f conn).created ≡ conn.created
unfolding call
call-created c (Callback.on_open r) conn = refl
call-created c (Callback.on_close r) conn = refl
call-created c (Callback.on_error r) conn = refl
call-created c Callback.on_client_closed conn = ground arith

call-rest :
    (c : ℕ) (f : Callback) (conn : Connection)
    → is_busy (status conn) ≡ false
    → is_busy (status (call c f conn)) ≡ false
unfolding call client_state_reducer
call-rest c (Callback.on_open r) conn h = ground arith
call-rest c (Callback.on_close r) conn h = ground arith
call-rest c (Callback.on_error r) conn h = ground arith
call-rest c Callback.on_client_closed conn h = ground arith

-- A connection at rest, with what was created.
pub record IsResting (created : List (ℕ × ℕ)) (conn : Connection) : Type 0 where
  pub at_rest : is_busy (status conn) ≡ false
  pub same : conn.created ≡ created

fire-IsResting :
    (cs : List (ℕ × ℕ)) (c : ℕ) (t : EventType) (conn : Connection)
    → IsResting cs conn
    → IsResting cs (fire c t conn)
fire-IsResting cs c t conn h =
    fire_each-keeps c t (IsResting cs) (conn.clients c).listeners conn
      (λ f at _ _ k. record {
        at_rest = call-rest c f at k.at_rest;
        same = call-created c f at ∙ k.same;
      })
      h

by_ready-IsResting :
    (cs : List (ℕ × ℕ)) (s : ReadyState) (x y z : Connection)
    → IsResting cs x
    → IsResting cs y
    → IsResting cs z
    → IsResting cs (by_ready s x y z)
by_ready-IsResting cs ReadyState.connecting x y z hx hy hz = hx
by_ready-IsResting cs ReadyState.opened x y z hx hy hz = hy
by_ready-IsResting cs ReadyState.closing x y z hx hy hz = hy
by_ready-IsResting cs ReadyState.closed x y z hx hy hz = hz

set_ready-IsResting :
    (cs : List (ℕ × ℕ)) (c : ℕ) (s : ReadyState) (conn : Connection)
    → IsResting cs conn
    → IsResting cs (set_ready c s conn)
set_ready-IsResting cs c s conn h = record { at_rest = h.at_rest; same = h.same }

-- A socket neither joins a room nor calls `onCreated`.
pub step-IsResting :
    (loc : Location) (cs : List (ℕ × ℕ)) (input : Input) (conn : Connection)
    → is_socket_event input ≡ true
    → IsResting cs conn
    → IsResting cs (step loc conn input)
step-IsResting loc cs (connect k f) conn s h = cc
step-IsResting loc cs disconnect conn s h = cc
step-IsResting loc cs (socket_opened c) conn s h = rw (opened_step loc c conn) (
    by_ready-IsResting cs (ready c conn) _ _ _
      (fire-IsResting cs c EventType.opened _ (set_ready-IsResting cs c ReadyState.opened conn h)) h
      h)
step-IsResting loc cs (socket_failed c) conn s h =
    let fails =
      fire-IsResting cs c EventType.close _ (
        fire-IsResting cs c EventType.error _
          (set_ready-IsResting cs c ReadyState.closed conn h)) in
    rw (failed_step loc c conn) (by_ready-IsResting cs (ready c conn) _ _ _ fails fails h)
step-IsResting loc cs (socket_ended c) conn s h = rw (ended_step loc c conn) (
    by_ready-IsResting cs (ready c conn) _ _ _ h
      (fire-IsResting cs c EventType.close _ (set_ready-IsResting cs c ReadyState.closed conn h)) h)

-- After a disconnect the store is at rest.
pub disconnect-rest :
    (loc : Location) (conn : Connection) → is_busy (status (step loc conn disconnect)) ≡ false
unfolding step disconnect_effect client_state_reducer
disconnect-rest loc conn = ground arith
