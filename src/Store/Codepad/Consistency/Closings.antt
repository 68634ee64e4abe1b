-- ===== src/Store/Codepad/Consistency/Closings.antt =====
-- That the failure and the end of the socket of the current client keep the connection consistent.
use editor_sh.Prelude.{ℕ, true, false, Option, ◌≡◌, ◌∙◌, ◌⊎◌, inl, inr}
use editor_sh.Service.Client.{ReadyState, EventType, Callback}
use editor_sh.Store.Codepad.{ConnectStatus}
use editor_sh.Store.Codepad.Connection.{Connection, status, fire, set_ready}
use editor_sh.Store.Codepad.Connection.Firing.{hears, IsFrame, fire_each-IsFrame}
use editor_sh.Store.Codepad.Connection.Events.{IsCurrent}
use editor_sh.Store.Codepad.Connection.Endings.{
  IsOwned, fire-error-IsOwned, fire-error-connecting, fire-error-disconnecting, fire-error-unheard,
  fire-close-status, fire-close-leaving, fire-close-current,
}
use editor_sh.Store.Codepad.Consistency.{IsSettled, ended, stuck, IsAlone, IsConsistent}
use editor_sh.Store.Codepad.Consistency.Sockets.{hears-set_ready, set_ready-IsCurrent, all_closed}

-- The socket of a client fails, or ends.
abbrev pub fail_socket : ℕ → Connection → Connection
fail_socket c conn =
    fire c EventType.close (fire c EventType.error (set_ready c ReadyState.closed conn))

abbrev pub end_socket : ℕ → Connection → Connection
end_socket c conn = fire c EventType.close (set_ready c ReadyState.closed conn)

IsFrame-trans : (a b d : Connection) → IsFrame a b → IsFrame b d → IsFrame a d
IsFrame-trans a b d f g = record {
  pad_hash = g.pad_hash ∙ f.pad_hash;
  ready = λ j. g.ready j ∙ f.ready j;
  room = λ j. g.room j ∙ f.room j;
}

pub owned : (c r : ℕ) (conn : Connection) → IsCurrent c r conn → IsOwned c conn
owned c r conn i = record { current = i.current; own = i.own }

pub fail_socket-IsFrame :
    (c : ℕ) (conn : Connection) → IsFrame (set_ready c ReadyState.closed conn) (fail_socket c conn)
fail_socket-IsFrame c conn =
    let before = set_ready c ReadyState.closed conn in
    let between = fire c EventType.error before in
    IsFrame-trans before between (fail_socket c conn)
      (fire_each-IsFrame c EventType.error (before.clients c).listeners before)
      (fire_each-IsFrame c EventType.close (between.clients c).listeners between)

-- A store without a client that is closed or leaving is ended or stuck.
settle :
    (conn : Connection)
    → (status conn ≡ ConnectStatus.closed) ⊎ (status conn ≡ ConnectStatus.disconnecting)
    → conn.current ≡ Option.none
    → IsSettled conn
settle conn (inl st) e = ended st e
settle conn (inr st) e = stuck st e

pub fail_socket-current :
    (c r : ℕ) (conn : Connection) → IsCurrent c r conn → (fail_socket c conn).current ≡ Option.none
fail_socket-current c r conn i =
    let before = set_ready c ReadyState.closed conn in
    fire-close-current c (fire c EventType.error before) (
      fire-error-IsOwned c before
        (owned c r before (set_ready-IsCurrent c r ReadyState.closed conn i)))

fail_socket-IsConsistent :
    (c r : ℕ) (conn : Connection)
    → IsAlone conn
    → IsCurrent c r conn
    → (status (fail_socket c conn) ≡ ConnectStatus.closed)
      ⊎ (status (fail_socket c conn) ≡ ConnectStatus.disconnecting)
    → IsConsistent (fail_socket c conn)
fail_socket-IsConsistent c r conn alone i st = record {
  settled = settle (fail_socket c conn) st (fail_socket-current c r conn i);
  alone = all_closed c conn (fail_socket c conn) alone i.current (fail_socket-IsFrame c conn);
}

-- The connection fails while the store is joining.
pub fail_joining-IsConsistent :
    (c r : ℕ) (conn : Connection)
    → status conn ≡ ConnectStatus.connecting
    → IsAlone conn
    → IsCurrent c r conn
    → hears (Callback.on_error r) c conn ≡ true
    → IsConsistent (fail_socket c conn)
fail_joining-IsConsistent c r conn st alone i o =
    let before = set_ready c ReadyState.closed conn in
    fail_socket-IsConsistent c r conn alone i (
      fire-close-leaving c (fire c EventType.error before) (
        inl (
          fire-error-connecting c r before st
            (hears-set_ready (Callback.on_error r) c ReadyState.closed conn ∙ o))))

-- The connection fails while the store is in the room.
pub fail_joined-IsConsistent :
    (c r : ℕ) (conn : Connection)
    → status conn ≡ ConnectStatus.connected
    → IsAlone conn
    → IsCurrent c r conn
    → ((s : ℕ) → hears (Callback.on_error s) c conn ≡ false)
    → IsConsistent (fail_socket c conn)
fail_joined-IsConsistent c r conn st alone i deaf =
    let before = set_ready c ReadyState.closed conn in
    fail_socket-IsConsistent c r conn alone i (
      inl (
        fire-close-status c r (fire c EventType.error before) (
          fire-error-unheard c r before st
            (hears-set_ready (Callback.on_close r) c ReadyState.closed conn ∙ i.ends)
            (λ s. hears-set_ready (Callback.on_error s) c ReadyState.closed conn ∙ deaf s))))

-- The connection fails while the store is leaving.
pub fail_leaving-IsConsistent :
    (c r : ℕ) (conn : Connection)
    → status conn ≡ ConnectStatus.disconnecting
    → IsAlone conn
    → IsCurrent c r conn
    → IsConsistent (fail_socket c conn)
fail_leaving-IsConsistent c r conn st alone i =
    let before = set_ready c ReadyState.closed conn in
    fail_socket-IsConsistent c r conn alone i (
      fire-close-leaving c (fire c EventType.error before)
        (inr (fire-error-disconnecting c before st)))

-- The end of the socket of the current client closes the store.
pub end_socket_lem :
    (c r : ℕ) (conn : Connection)
    → IsAlone conn
    → IsCurrent c r conn
    → (status (end_socket c conn) ≡ ConnectStatus.closed) × IsConsistent (end_socket c conn)
end_socket_lem c r conn alone i =
    let before = set_ready c ReadyState.closed conn in
    let closed =
      fire-close-status c r before
        (hears-set_ready (Callback.on_close r) c ReadyState.closed conn ∙ i.ends) in
    (
      closed,
      record {
        settled = ended closed (
            fire-close-current c before
              (owned c r before (set_ready-IsCurrent c r ReadyState.closed conn i)));
        alone =
            all_closed c conn (end_socket c conn) alone i.current
              (fire_each-IsFrame c EventType.close (before.clients c).listeners before);
      },
    )
