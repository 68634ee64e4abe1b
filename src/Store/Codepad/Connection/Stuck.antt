-- ===== src/Store/Codepad/Connection/Stuck.antt =====
-- Leaving a room: how a store gets out of it, and how it never does.
use editor_sh.Prelude.{ℕ, sym, subst, ◌∙◌, Option, List, [], ◌∷◌, ◌≡◌, ◌≢◌, refl, inl, inr, arith}
use editor_sh.Service.Endpoint.{Location}
use editor_sh.Service.Client.{EventType, Callback, ReadyState}
use editor_sh.Store.Codepad.{ConnectStatus}
use editor_sh.Store.Codepad.Connection.{
  Connection, status, Input, connect, disconnect, socket_opened, socket_failed, socket_ended, step,
  start, set_ready, fire, run,
}
use editor_sh.Store.Codepad.Connection.Firing.{hears}
use editor_sh.Store.Codepad.Connection.Events.{IsCurrent, EndsAlike}
use editor_sh.Store.Codepad.Connection.Endings.{fire-error-disconnecting}
use editor_sh.Store.Codepad.Connection.Silence.{fire-error-deaf, fire-close-silent}
use editor_sh.Store.Codepad.Consistency.{
  IsAlone, ready, IsSettled, idle, ended, stuck, joining, joined, leaving, IsConsistent,
}
use editor_sh.Store.Codepad.Consistency.Steps.{connect_ignored}
use editor_sh.Store.Codepad.Consistency.Sockets.{
  hears-set_ready, set_ready-IsCurrent, all_closed, left, left-step, stuck_step,
}
use editor_sh.Store.Codepad.Consistency.Closings.{
  owned, fail_socket, fail_socket-current, fail_socket-IsFrame, end_socket, end_socket_lem,
}
use editor_sh.Store.Codepad.Consistency.Inputs.{opened_step, failed_step, ended_step}
use editor_sh.Store.Codepad.Consistency.Runs.{
  same_client, current-IsCurrent, run-IsConsistent, step-IsConsistent,
}

-- The store is leaving, and no socket is left whose end could be awaited.
pub record IsStuck (conn : Connection) : Type 0 where
  pub leaves : status conn ≡ ConnectStatus.disconnecting
  pub no_client : conn.current ≡ Option.none
  pub no_socket : (j : ℕ) → ready j conn ≡ ReadyState.closed

step-IsStuck :
    (loc : Location) (input : Input) (conn : Connection)
    → IsStuck conn
    → IsStuck (step loc conn input)
step-IsStuck loc (connect k f) conn h = rw (connect_ignored loc k f conn (inr h.leaves)) h
step-IsStuck loc disconnect conn h =
    rw (stuck_step loc conn h.leaves h.no_client)
      (record { leaves = h.leaves; no_client = h.no_client; no_socket = h.no_socket })
step-IsStuck loc (socket_opened c) conn h = rw (opened_step loc c conn, h.no_socket c) h
step-IsStuck loc (socket_failed c) conn h = rw (failed_step loc c conn, h.no_socket c) h
step-IsStuck loc (socket_ended c) conn h = rw (ended_step loc c conn, h.no_socket c) h

run-IsStuck :
    (loc : Location) (inputs : List Input) (conn : Connection)
    → IsStuck conn
    → IsStuck (run loc conn inputs)
run-IsStuck loc [] conn h = h
run-IsStuck loc (input ∷ later) conn h =
    run-IsStuck loc later (step loc conn input) (step-IsStuck loc input conn h)

-- A current client has a socket that is not closed.
current_live :
    (c : ℕ) (conn : Connection)
    → IsSettled conn
    → conn.current ≡ Option.some c
    → ready c conn ≢ ReadyState.closed
current_live c conn (idle st e) e' = cc
current_live c conn (ended st e) e' = cc
current_live c conn (stuck st e) e' = cc
current_live c conn (joining d r st i o al en rd rm) e' =
    λ z. cc (same_client c d conn e' i.current, rd, z)
current_live c conn (joined d r st i deaf rd rm) e' =
    λ z. cc (same_client c d conn e' i.current, rd, z)
current_live c conn (leaving d r st i rd) e' = λ z. cc (same_client c d conn e' i.current, rd, z)

closed_current :
    (conn : Connection)
    → IsSettled conn
    → status conn ≡ ConnectStatus.closed
    → conn.current ≡ Option.none
closed_current conn (idle st e) z = e
closed_current conn (ended st e) z = e
closed_current conn (stuck st e) z = e
closed_current conn (joining d r st i o al en rd rm) z = cc
closed_current conn (joined d r st i deaf rd rm) z = cc
closed_current conn (leaving d r st i rd) z = cc

ended_left :
    (loc : Location) (c : ℕ) (conn : Connection)
    → ready c conn ≢ ReadyState.closed
    → step loc (left c conn) (socket_ended c) ≡ end_socket c (left c conn)
ended_left loc c conn live =
    let closing : ready c (left c conn) ≡ ReadyState.closing = ground (arith, live) in
    ended_step loc c (left c conn) ∙ rw closing refl

-- A disconnect in a room, and the end of its socket
pub left_ends :
    (loc : Location) (c : ℕ) (conn : Connection)
    → status conn ≡ ConnectStatus.connected
    → conn.current ≡ Option.some c
    → IsConsistent conn
    → let after = step loc (step loc conn disconnect) (socket_ended c) in
      (status after ≡ ConnectStatus.closed) × (after.current ≡ Option.none)
left_ends loc c conn st e h =
    let gone = left-step loc c conn (inr (inl st)) e in
    let h' = subst IsConsistent gone (step-IsConsistent loc disconnect conn h) in
    let (r, i) = current-IsCurrent c (left c conn) h'.settled e in
    let (closed, h'') = end_socket_lem c r (left c conn) h'.alone i in
    rw (gone, ended_left loc c conn (current_live c conn h.settled e))
      (closed, closed_current (end_socket c (left c conn)) h''.settled closed)

joining-EndsAlike :
    (c : ℕ) (conn : Connection)
    → IsSettled conn
    → status conn ≡ ConnectStatus.connecting
    → conn.current ≡ Option.some c
    → EndsAlike c conn
joining-EndsAlike c conn (idle st e) z e' = cc
joining-EndsAlike c conn (ended st e) z e' = cc
joining-EndsAlike c conn (stuck st e) z e' = cc
joining-EndsAlike c conn (joining d r st i o al en rd rm) z e' =
    subst (λ n. EndsAlike n conn) (same_client c d conn e' i.current) en
joining-EndsAlike c conn (joined d r st i deaf rd rm) z e' = cc
joining-EndsAlike c conn (leaving d r st i rd) z e' = cc

hears-left : (f : Callback) (c : ℕ) (conn : Connection) → hears f c (left c conn) ≡ hears f c conn
hears-left f c conn = ground arith

failed_left :
    (loc : Location) (c : ℕ) (conn : Connection)
    → ready c conn ≢ ReadyState.closed
    → step loc (left c conn) (socket_failed c) ≡ fail_socket c (left c conn)
failed_left loc c conn live =
    let closing : ready c (left c conn) ≡ ReadyState.closing = ground (arith, live) in
    failed_step loc c (left c conn) ∙ rw closing refl

-- The failure of a client that was left while it was joining.
fail_socket-IsStuck :
    (c r : ℕ) (conn : Connection)
    → status conn ≡ ConnectStatus.disconnecting
    → IsAlone conn
    → IsCurrent c r conn
    → EndsAlike c conn
    → IsStuck (fail_socket c conn)
fail_socket-IsStuck c r conn st alone i en =
    let before = set_ready c ReadyState.closed conn in
    let i' = set_ready-IsCurrent c r ReadyState.closed conn i in
    let alike : EndsAlike c before = λ s.
      hears-set_ready (Callback.on_close s) c ReadyState.closed conn
      ∙ (en s ∙ sym (hears-set_ready (Callback.on_error s) c ReadyState.closed conn)) in
    let no_client = fail_socket-current c r conn i in
    record {
      leaves =
          fire-close-silent c (fire c EventType.error before) (fire-error-disconnecting c before st)
            (λ s. fire-error-deaf c s before (owned c r before i') alike);
      no_client = no_client;
      no_socket = λ j.
          elim (all_closed c conn (fail_socket c conn) alone i.current (fail_socket-IsFrame c conn)
            j) [ inl e ↦ e | inr e ↦ cc (e, no_client) ];
    }

given_up :
    (loc : Location) (c : ℕ) (conn : Connection)
    → status conn ≡ ConnectStatus.connecting
    → conn.current ≡ Option.some c
    → IsConsistent conn
    → IsStuck (step loc (step loc conn disconnect) (socket_failed c))
given_up loc c conn st e h =
    let gone = left-step loc c conn (inl st) e in
    let h' = subst IsConsistent gone (step-IsConsistent loc disconnect conn h) in
    let (r, i) = current-IsCurrent c (left c conn) h'.settled e in
    let en = joining-EndsAlike c conn h.settled st e in
    rw (gone, failed_left loc c conn (current_live c conn h.settled e))
      (fail_socket-IsStuck c r (left c conn) refl h'.alone i (λ s.
        hears-left (Callback.on_close s) c conn
        ∙ (en s ∙ sym (hears-left (Callback.on_error s) c conn))))

-- While a room is being joined, whatever came before, a disconnect and the failure of the connection
-- leave the store stuck: whatever follows, no room is joined any more, as the status stays
-- disconnecting, there is no client and every socket is closed.
pub run_given_up :
    (loc : Location) (inputs : List Input) (c : ℕ) (later : List Input)
    → status (run loc start inputs) ≡ ConnectStatus.connecting
    → (run loc start inputs).current ≡ Option.some c
    → IsStuck (run loc (run loc start inputs) (disconnect ∷ socket_failed c ∷ later))
run_given_up loc inputs c later st e =
    run-IsStuck loc later (step loc (step loc (run loc start inputs) disconnect) (socket_failed c))
      (given_up loc c (run loc start inputs) st e (run-IsConsistent loc inputs))

-- In a room, whatever came before, a disconnect and the end of the socket leave the store closed
-- and without a client.
pub run_left :
    (loc : Location) (inputs : List Input) (c : ℕ)
    → status (run loc start inputs) ≡ ConnectStatus.connected
    → (run loc start inputs).current ≡ Option.some c
    → let after = run loc (run loc start inputs) (disconnect ∷ socket_ended c ∷ []) in
      (status after ≡ ConnectStatus.closed) × (after.current ≡ Option.none)
run_left loc inputs c st e =
    left_ends loc c (run loc start inputs) st e (run-IsConsistent loc inputs)
