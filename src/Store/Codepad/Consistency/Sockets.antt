-- ===== src/Store/Codepad/Consistency/Sockets.antt =====
-- That a disconnect and what happens to a socket keep the connection consistent.
use editor_sh.Prelude.{
  ℕ, true, false, Option, ◌≡◌, ◌≢◌, refl, sym, ◌∙◌, ◌⊎◌, inl, arith, ◌==◌, if◌then◌else◌,
}
use editor_sh.Service.Endpoint.{Location}
use editor_sh.Service.Client.{ReadyState, EventType, Callback, close_socket}
use editor_sh.Store.Codepad.{ConnectStatus, client_state_reducer}
use editor_sh.Store.Codepad.Connection.{
  Connection, status, disconnect, step, disconnect_effect, fire, set_ready, throw_fault, Fault,
  update_client,
}
use editor_sh.Store.Codepad.Connection.Firing.{hears, IsFrame, fire_each-IsFrame}
use editor_sh.Store.Codepad.Connection.Events.{IsCurrent, OpensAlike, fire-opened}
use editor_sh.Store.Codepad.Consistency.{
  ready, InRoom, stuck, joined, leaving, IsAlone, IsConsistent,
}
use editor_sh.Store.Codepad.Consistency.Steps.{record-IsConsistent}

pub stuck_step :
    (loc : Location) (conn : Connection)
    → status conn ≡ ConnectStatus.disconnecting
    → conn.current ≡ Option.none
    → step loc conn disconnect ≡ throw_fault Fault.no_current_client conn
unfolding step disconnect_effect client_state_reducer
stuck_step loc conn st e = ground arith

-- A disconnect with nothing left to close reports that there is no client.
pub disconnect_stuck-IsConsistent :
    (loc : Location) (conn : Connection)
    → status conn ≡ ConnectStatus.disconnecting
    → conn.current ≡ Option.none
    → IsAlone conn
    → IsConsistent (step loc conn disconnect)
disconnect_stuck-IsConsistent loc conn st e alone = rw (stuck_step loc conn st e) (
    record-IsConsistent conn conn.count conn.runs conn.created _
      (record { settled = stuck st e; alone = alone }))

-- The store after a disconnect of the current client.
abbrev pub left : ℕ → Connection → Connection
left c conn = update_client c (close_socket (conn.clients c)) (record conn {
  client_state = record conn.client_state { connect_status = ConnectStatus.disconnecting };
})

pub left-step :
    (loc : Location) (c : ℕ) (conn : Connection)
    → (status conn ≡ ConnectStatus.connecting)
      ⊎ ((status conn ≡ ConnectStatus.connected) ⊎ (status conn ≡ ConnectStatus.disconnecting))
    → conn.current ≡ Option.some c
    → step loc conn disconnect ≡ left c conn
unfolding step disconnect_effect client_state_reducer
left-step loc c conn st e = ground arith

-- A disconnect with a current client closes its socket.
pub disconnect-IsConsistent :
    (loc : Location) (c r : ℕ) (conn : Connection)
    → (status conn ≡ ConnectStatus.connecting)
      ⊎ ((status conn ≡ ConnectStatus.connected) ⊎ (status conn ≡ ConnectStatus.disconnecting))
    → IsAlone conn
    → IsCurrent c r conn
    → ready c conn ≢ ReadyState.closed
    → IsConsistent (step loc conn disconnect)
disconnect-IsConsistent loc c r conn st alone i rd =
    rw (left-step loc c conn st i.current) (record {
      alone = λ j. ground (arith, alone j, i.current);
      settled =
          leaving c r refl
            (record {
              current = i.current;
              own = ground (arith, i.own);
              ends = ground (arith, i.ends);
            })
            (ground (arith, rd));
    })

pub hears-set_ready :
    (f : Callback) (c : ℕ) (r : ReadyState) (conn : Connection)
    → hears f c (set_ready c r conn) ≡ hears f c conn
hears-set_ready f c r conn = ground arith

ready-set_ready :
    (j c : ℕ) (r : ReadyState) (conn : Connection)
    → ready j (set_ready c r conn) ≡ (if j == c then r else ready j conn)
ready-set_ready j c r conn = ground arith

room-set_ready :
    (j c : ℕ) (r : ReadyState) (conn : Connection)
    → ((set_ready c r conn).clients j).room_key ≡ (conn.clients j).room_key
room-set_ready j c r conn = ground arith

pub set_ready-IsCurrent :
    (c r : ℕ) (rs : ReadyState) (conn : Connection)
    → IsCurrent c r conn
    → IsCurrent c r (set_ready c rs conn)
set_ready-IsCurrent c r rs conn i = record {
  current = i.current;
  own = hears-set_ready Callback.on_client_closed c rs conn ∙ i.own;
  ends = hears-set_ready (Callback.on_close r) c rs conn ∙ i.ends;
}

-- After the opening of the socket of a client that is joining, its store is connected.
pub opened_status :
    (c r : ℕ) (conn : Connection)
    → status conn ≡ ConnectStatus.connecting
    → IsCurrent c r conn
    → hears (Callback.on_open r) c conn ≡ true
    → OpensAlike c conn
    → let after = fire c EventType.opened (set_ready c ReadyState.opened conn) in
      (status after ≡ ConnectStatus.connected)
      × IsCurrent c r after
      × ((s : ℕ) → hears (Callback.on_error s) c after ≡ false)
opened_status c r conn st i o al =
    fire-opened c r (set_ready c ReadyState.opened conn) st
      (hears-set_ready (Callback.on_open r) c ReadyState.opened conn ∙ o)
      (set_ready-IsCurrent c r ReadyState.opened conn i)
      (λ s.
        hears-set_ready (Callback.on_error s) c ReadyState.opened conn
        ∙ (al s ∙ sym (hears-set_ready (Callback.on_open s) c ReadyState.opened conn)))

-- The socket that the store waits for opens.
pub opened-IsConsistent :
    (c r : ℕ) (conn : Connection)
    → status conn ≡ ConnectStatus.connecting
    → IsAlone conn
    → IsCurrent c r conn
    → hears (Callback.on_open r) c conn ≡ true
    → OpensAlike c conn
    → InRoom c conn
    → IsConsistent (fire c EventType.opened (set_ready c ReadyState.opened conn))
opened-IsConsistent c r conn st alone i o al rm =
    let before = set_ready c ReadyState.opened conn in
    let frame = fire_each-IsFrame c EventType.opened (before.clients c).listeners before in
    let (st', i', deaf) = opened_status c r conn st i o al in
    record {
      alone = λ j. ground (
        arith,
        alone j,
        i.current,
        i'.current,
        frame.ready j,
        ready-set_ready j c ReadyState.opened conn,
      );
      settled =
          joined c r st' i' deaf
            (frame.ready c ∙ (ready-set_ready c c ReadyState.opened conn ∙ ground arith))
            (frame.room c
              ∙ (room-set_ready c c ReadyState.opened conn ∙ (rm ∙ sym frame.pad_hash)));
    }

-- After the end of the socket of the current client all sockets are closed.
pub all_closed :
    (c : ℕ) (conn after : Connection)
    → IsAlone conn
    → conn.current ≡ Option.some c
    → IsFrame (set_ready c ReadyState.closed conn) after
    → IsAlone after
all_closed c conn after alone e frame j =
    inl (ground (arith, alone j, e, frame.ready j, ready-set_ready j c ReadyState.closed conn))
