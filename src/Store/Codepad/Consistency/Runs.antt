-- ===== src/Store/Codepad/Consistency/Runs.antt =====
-- That every history of the page and the browser keeps the connection consistent.
use editor_sh.Prelude.{
  ℕ, String, Option, List, [], ◌∷◌, ◌≡◌, ◌≢◌, refl, ◌∙◌, inl, inr, arith, subst,
}
use editor_sh.Service.Endpoint.{Location}
use editor_sh.Service.Client.{ReadyState, EventType}
use editor_sh.Store.Codepad.Connection.{
  Connection, Input, connect, disconnect, socket_opened, socket_failed, socket_ended, step, start,
  run, fire, set_ready,
}
use editor_sh.Store.Codepad.Connection.Events.{IsCurrent}
use editor_sh.Store.Codepad.Consistency.{
  ready, IsSettled, idle, ended, stuck, joining, joined, leaving, IsAlone, IsConsistent,
}
use editor_sh.Store.Codepad.Consistency.Steps.{
  connect_ignored, disconnect_ignored, connect_idle-IsConsistent, connect_joining-IsConsistent,
}
use editor_sh.Store.Codepad.Consistency.Sockets.{
  disconnect-IsConsistent, disconnect_stuck-IsConsistent, opened-IsConsistent,
}
use editor_sh.Store.Codepad.Consistency.Closings.{
  fail_joining-IsConsistent, fail_joined-IsConsistent, fail_leaving-IsConsistent, end_socket_lem,
  fail_socket, end_socket,
}
use editor_sh.Store.Codepad.Consistency.Inputs.{
  opened_step, failed_step, ended_step, by_ready-IsConsistent,
}

connect-IsConsistent :
    (loc : Location) (k : String) (f : Option ℕ) (conn : Connection)
    → IsSettled conn
    → IsAlone conn
    → IsConsistent (step loc conn (connect k f))
connect-IsConsistent loc k f conn (idle st e) alone =
    connect_idle-IsConsistent loc k f conn (inl st) e alone
connect-IsConsistent loc k f conn (ended st e) alone =
    connect_idle-IsConsistent loc k f conn (inr st) e alone
connect-IsConsistent loc k f conn (stuck st e) alone =
    rw (connect_ignored loc k f conn (inr st)) (record { settled = stuck st e; alone = alone })
connect-IsConsistent loc k f conn (joining c r st i o al en rd rm) alone =
    connect_joining-IsConsistent loc k f c r conn st alone i o al en rd rm
connect-IsConsistent loc k f conn (joined c r st i deaf rd rm) alone =
    rw (connect_ignored loc k f conn (inl st))
      (record { settled = joined c r st i deaf rd rm; alone = alone })
connect-IsConsistent loc k f conn (leaving c r st i rd) alone =
    rw (connect_ignored loc k f conn (inr st))
      (record { settled = leaving c r st i rd; alone = alone })

leave-IsConsistent :
    (loc : Location) (conn : Connection)
    → IsSettled conn
    → IsAlone conn
    → IsConsistent (step loc conn disconnect)
leave-IsConsistent loc conn (idle st e) alone =
    rw (disconnect_ignored loc conn (inl st)) (record { settled = idle st e; alone = alone })
leave-IsConsistent loc conn (ended st e) alone =
    rw (disconnect_ignored loc conn (inr st)) (record { settled = ended st e; alone = alone })
leave-IsConsistent loc conn (stuck st e) alone = disconnect_stuck-IsConsistent loc conn st e alone
leave-IsConsistent loc conn (joining c r st i o al en rd rm) alone =
    disconnect-IsConsistent loc c r conn (inl st) alone i (λ e. cc (e, rd))
leave-IsConsistent loc conn (joined c r st i deaf rd rm) alone =
    disconnect-IsConsistent loc c r conn (inr (inl st)) alone i (λ e. cc (e, rd))
leave-IsConsistent loc conn (leaving c r st i rd) alone =
    disconnect-IsConsistent loc c r conn (inr (inr st)) alone i (λ e. cc (e, rd))

-- A socket that is not closed is the one of the current client.
live_current :
    (c : ℕ) (conn : Connection)
    → IsAlone conn
    → ready c conn ≢ ReadyState.closed
    → conn.current ≡ Option.some c
live_current c conn alone rd = elim (alone c) [ inl e ↦ absurd (rd e) | inr e ↦ e ]

pub same_client :
    (c d : ℕ) (conn : Connection)
    → conn.current ≡ Option.some c
    → conn.current ≡ Option.some d
    → d ≡ c
same_client c d conn e e' = ground arith

open-IsConsistent :
    (c : ℕ) (conn : Connection)
    → IsSettled conn
    → IsAlone conn
    → conn.current ≡ Option.some c
    → ready c conn ≡ ReadyState.connecting
    → IsConsistent (fire c EventType.opened (set_ready c ReadyState.opened conn))
open-IsConsistent c conn (idle st e) alone e' rd = cc
open-IsConsistent c conn (ended st e) alone e' rd = cc
open-IsConsistent c conn (stuck st e) alone e' rd = cc
open-IsConsistent c conn (joining d r st i o al en rd rm) alone e' rd' =
    subst (λ n. IsConsistent (fire n EventType.opened (set_ready n ReadyState.opened conn)))
      (same_client c d conn e' i.current) (opened-IsConsistent d r conn st alone i o al rm)
open-IsConsistent c conn (joined d r st i deaf rd rm) alone e' rd' =
    cc (same_client c d conn e' i.current)
open-IsConsistent c conn (leaving d r st i rd) alone e' rd' = cc (same_client c d conn e' i.current)

fail-IsConsistent :
    (c : ℕ) (conn : Connection)
    → IsSettled conn
    → IsAlone conn
    → conn.current ≡ Option.some c
    → IsConsistent (fail_socket c conn)
fail-IsConsistent c conn (idle st e) alone e' = cc
fail-IsConsistent c conn (ended st e) alone e' = cc
fail-IsConsistent c conn (stuck st e) alone e' = cc
fail-IsConsistent c conn (joining d r st i o al en rd rm) alone e' =
    subst (λ n. IsConsistent (fail_socket n conn)) (same_client c d conn e' i.current)
      (fail_joining-IsConsistent d r conn st alone i (al r ∙ o))
fail-IsConsistent c conn (joined d r st i deaf rd rm) alone e' =
    subst (λ n. IsConsistent (fail_socket n conn)) (same_client c d conn e' i.current)
      (fail_joined-IsConsistent d r conn st alone i deaf)
fail-IsConsistent c conn (leaving d r st i rd) alone e' =
    subst (λ n. IsConsistent (fail_socket n conn)) (same_client c d conn e' i.current)
      (fail_leaving-IsConsistent d r conn st alone i)

-- The current client has its listeners.
pub current-IsCurrent :
    (c : ℕ) (conn : Connection)
    → IsSettled conn
    → conn.current ≡ Option.some c
    → (r : ℕ) × IsCurrent c r conn
current-IsCurrent c conn (idle st e) e' = cc
current-IsCurrent c conn (ended st e) e' = cc
current-IsCurrent c conn (stuck st e) e' = cc
current-IsCurrent c conn (joining d r st i o al en rd rm) e' =
    (r, subst (λ n. IsCurrent n r conn) (same_client c d conn e' i.current) i)
current-IsCurrent c conn (joined d r st i deaf rd rm) e' =
    (r, subst (λ n. IsCurrent n r conn) (same_client c d conn e' i.current) i)
current-IsCurrent c conn (leaving d r st i rd) e' =
    (r, subst (λ n. IsCurrent n r conn) (same_client c d conn e' i.current) i)

end-IsConsistent :
    (c : ℕ) (conn : Connection)
    → IsConsistent conn
    → ready c conn ≢ ReadyState.closed
    → IsConsistent (end_socket c conn)
end-IsConsistent c conn h rd =
    let (r, i) = current-IsCurrent c conn h.settled (live_current c conn h.alone rd) in
    (end_socket_lem c r conn h.alone i).1

-- Each input keeps the connection consistent.
pub step-IsConsistent :
    (loc : Location) (input : Input) (conn : Connection)
    → IsConsistent conn
    → IsConsistent (step loc conn input)
step-IsConsistent loc (connect k f) conn h = connect-IsConsistent loc k f conn h.settled h.alone
step-IsConsistent loc disconnect conn h = leave-IsConsistent loc conn h.settled h.alone
step-IsConsistent loc (socket_opened c) conn h = rw (opened_step loc c conn) (
    by_ready-IsConsistent (ready c conn) _ _ _
      (λ e.
        open-IsConsistent c conn h.settled h.alone (live_current c conn h.alone (λ z. cc (e, z))) e)
      (λ e. h) h)
step-IsConsistent loc (socket_failed c) conn h =
    let fails = λ (rd : ready c conn ≢ ReadyState.closed).
      fail-IsConsistent c conn h.settled h.alone (live_current c conn h.alone rd) in
    rw (failed_step loc c conn)
      (by_ready-IsConsistent (ready c conn) _ _ _ (λ e. fails (λ z. cc (e, z))) fails h)
step-IsConsistent loc (socket_ended c) conn h =
    rw (ended_step loc c conn)
      (by_ready-IsConsistent (ready c conn) _ _ _ (λ e. h) (end-IsConsistent c conn h) h)

run_from :
    (loc : Location) (inputs : List Input) (conn : Connection)
    → IsConsistent conn
    → IsConsistent (run loc conn inputs)
run_from loc [] conn h = h
run_from loc (input ∷ later) conn h =
    run_from loc later (step loc conn input) (step-IsConsistent loc input conn h)

-- After every history of connects, disconnects and socket events from the first state on, at most
-- one socket is not closed, and it is the current client's. With a current client the store is
-- connecting, connected or disconnecting, its socket is connecting, open or closing, and it is of the
-- store's room while that is connecting or connected. Without one the store is at its first status,
-- closed or disconnecting.
pub run-IsConsistent : (loc : Location) (inputs : List Input) → IsConsistent (run loc start inputs)
run-IsConsistent loc inputs =
    run_from loc inputs start (record { settled = idle refl refl; alone = λ j. inl refl })
