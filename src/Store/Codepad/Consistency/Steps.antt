-- ===== src/Store/Codepad/Consistency/Steps.antt =====
-- That a connect keeps the connection consistent.
use editor_sh.Prelude.{
  ℕ, String, str_eq, true, Option, List, ◌≡◌, refl, ◌⊎◌, inl, inr, Bool-cases, arith, if◌then◌else◌,
}
use editor_sh.Service.Endpoint.{Location}
use editor_sh.Service.Client.{ReadyState, Callback}
use editor_sh.Store.Codepad.{ConnectStatus, client_state_reducer}
use editor_sh.Store.Codepad.Connection.{
  Connection, status, connect, disconnect, step, connect_effect, disconnect_effect, create_client,
  listen, Fault, call_created, throw_fault,
}
use editor_sh.Store.Codepad.Connection.Firing.{hears}
use editor_sh.Store.Codepad.Connection.Events.{IsCurrent, OpensAlike, EndsAlike}
use editor_sh.Store.Codepad.Consistency.Joins.{listen-IsConsistent, made-IsConsistent}
use editor_sh.Store.Codepad.Consistency.{
  ready, InRoom, idle, ended, stuck, joining, joined, leaving, IsAlone, IsConsistent,
}

-- While the store is in a room or leaving one, a connect is ignored.
pub connect_ignored :
    (loc : Location) (k : String) (f : Option ℕ) (conn : Connection)
    → (status conn ≡ ConnectStatus.connected) ⊎ (status conn ≡ ConnectStatus.disconnecting)
    → step loc conn (connect k f) ≡ conn
unfolding step connect_effect client_state_reducer
connect_ignored loc k f conn h = ground arith

-- Without a room to leave, a disconnect is ignored.
pub disconnect_ignored :
    (loc : Location) (conn : Connection)
    → (status conn ≡ ConnectStatus.none) ⊎ (status conn ≡ ConnectStatus.closed)
    → step loc conn disconnect ≡ conn
unfolding step disconnect_effect client_state_reducer
disconnect_ignored loc conn h = ground arith

-- What is recorded, the number of clients and the number of runs have no part in consistency.
pub record-IsConsistent :
    (conn : Connection) (n m : ℕ) (cs : List (ℕ × ℕ)) (es : List Fault)
    → IsConsistent conn
    → IsConsistent (record conn { count = n; runs = m; created = cs; faults = es })
record-IsConsistent conn n m cs es h = record {
  alone = h.alone;
  settled = elim h.settled [
    | idle st e ↦ idle st e
    | ended st e ↦ ended st e
    | stuck st e ↦ stuck st e
    | joining c r st i o al en rd rm ↦
        joining c r st (record { current = i.current; own = i.own; ends = i.ends }) o al en rd rm
    | joined c r st i deaf rd rm ↦
        joined c r st (record { current = i.current; own = i.own; ends = i.ends }) deaf rd rm
    | leaving c r st i rd ↦
        leaving c r st (record { current = i.current; own = i.own; ends = i.ends }) rd
  ];
}

created-IsConsistent :
    (f : Option ℕ) (c : ℕ) (conn : Connection)
    → IsConsistent conn
    → IsConsistent (call_created f c conn)
created-IsConsistent Option.none c conn h = h
created-IsConsistent (Option.some f) c conn h = record-IsConsistent conn _ _ _ _ h

-- A connect of a store without a room makes a client and joins.
pub connect_idle-IsConsistent :
    (loc : Location) (k : String) (f : Option ℕ) (conn : Connection)
    → (status conn ≡ ConnectStatus.none) ⊎ (status conn ≡ ConnectStatus.closed)
    → conn.current ≡ Option.none
    → IsAlone conn
    → IsConsistent (step loc conn (connect k f))
unfolding step connect_effect create_client client_state_reducer
connect_idle-IsConsistent loc k f conn (inl st) e alone =
    rw (st, e)
      (created-IsConsistent f conn.count _ (
        made-IsConsistent loc k
          (record conn {
            client_state = record { pad_hash = k; connect_status = ConnectStatus.connecting };
          })
          refl refl e alone))
connect_idle-IsConsistent loc k f conn (inr st) e alone =
    rw (st, e)
      (created-IsConsistent f conn.count _ (
        made-IsConsistent loc k
          (record conn {
            client_state = record { pad_hash = k; connect_status = ConnectStatus.connecting };
          })
          refl refl e alone))

again :
    (loc : Location) (k : String) (f : Option ℕ) (c : ℕ) (conn : Connection)
    → status conn ≡ ConnectStatus.connecting
    → conn.current ≡ Option.some c
    → step loc conn (connect k f) ≡ (
        if str_eq (conn.clients c).room_key k
        then call_created f c (listen c conn)
        else throw_fault Fault.close_current_first conn)
unfolding step connect_effect create_client client_state_reducer
again loc k f c conn st e = ground arith

-- A connect while the store is joining a room listens once more, or is refused by the service.
pub connect_joining-IsConsistent :
    (loc : Location) (k : String) (f : Option ℕ) (c r : ℕ) (conn : Connection)
    → status conn ≡ ConnectStatus.connecting
    → IsAlone conn
    → IsCurrent c r conn
    → hears (Callback.on_open r) c conn ≡ true
    → OpensAlike c conn
    → EndsAlike c conn
    → ready c conn ≡ ReadyState.connecting
    → InRoom c conn
    → IsConsistent (step loc conn (connect k f))
connect_joining-IsConsistent loc k f c r conn st alone i o al en rd rm =
    rw (again loc k f c conn st i.current) (elim (Bool-cases (str_eq (conn.clients c).room_key k)) [
      | inl same ↦
          rw same
            (created-IsConsistent f c _ (listen-IsConsistent c r conn st alone i o al en rd rm))
      | inr other ↦ rw other (
          record-IsConsistent conn conn.count conn.runs conn.created _
            (record { settled = joining c r st i o al en rd rm; alone = alone }))
    ])
