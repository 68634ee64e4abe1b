-- ===== src/Store/Codepad/Consistency/Joins.antt =====
-- What a run that listens to a client makes of a consistent connection.
use editor_sh.Prelude.{ℕ, String, true, ◌||◌, Option, ◌≡◌, refl, ◌∙◌, arith}
use editor_sh.Service.Endpoint.{Location}
use editor_sh.Service.Client.{ReadyState, Callback, callback_eq, is_listening, add_listener}
use editor_sh.Store.Codepad.{ConnectStatus}
use editor_sh.Store.Codepad.Connection.{Connection, status, make_client, listen}
use editor_sh.Store.Codepad.Connection.Listeners.{is_listening-add_listener}
use editor_sh.Store.Codepad.Connection.Firing.{hears}
use editor_sh.Store.Codepad.Connection.Events.{IsCurrent, OpensAlike, EndsAlike}
use editor_sh.Store.Codepad.Consistency.{ready, InRoom, joining, IsAlone, IsConsistent}

-- A run that listens to a client in addition.
hears-listen :
    (f : Callback) (c : ℕ) (conn : Connection)
    → hears f c (listen c conn) ≡ (
        callback_eq f (Callback.on_close conn.runs)
        || (callback_eq f (Callback.on_error conn.runs)
            || (callback_eq f (Callback.on_open conn.runs) || hears f c conn)))
unfolding listen
hears-listen f c conn =
    let ls = (conn.clients c).listeners in
    let ks = add_listener (Callback.on_open conn.runs) ls in
    ground (
      arith,
      is_listening-add_listener f (Callback.on_open conn.runs) ls,
      is_listening-add_listener f (Callback.on_error conn.runs) ks,
      is_listening-add_listener f (Callback.on_close conn.runs)
          (add_listener (Callback.on_error conn.runs) ks),
    )

-- A run more that listens to the client that the store is connecting to.
pub listen-IsConsistent :
    (c r : ℕ) (conn : Connection)
    → status conn ≡ ConnectStatus.connecting
    → IsAlone conn
    → IsCurrent c r conn
    → hears (Callback.on_open r) c conn ≡ true
    → OpensAlike c conn
    → EndsAlike c conn
    → ready c conn ≡ ReadyState.connecting
    → InRoom c conn
    → IsConsistent (listen c conn)
unfolding listen
listen-IsConsistent c r conn st alone i o al en rd rm = record {
  alone = λ j. ground (arith, alone j);
  settled =
      joining c r st
        (record {
          current = i.current;
          own = hears-listen Callback.on_client_closed c conn ∙ i.own;
          ends = hears-listen (Callback.on_close r) c conn ∙ ground (arith, i.ends);
        })
        (hears-listen (Callback.on_open r) c conn ∙ ground (arith, o))
        (λ s. ground (
          arith,
          al s,
          hears-listen (Callback.on_open s) c conn,
          hears-listen (Callback.on_error s) c conn,
        ))
        (λ s. ground (
          arith,
          en s,
          hears-listen (Callback.on_close s) c conn,
          hears-listen (Callback.on_error s) c conn,
        ))
        (ground (arith, rd)) (ground (arith, rm));
}

hears-make_client :
    (f : Callback) (loc : Location) (k : String) (conn : Connection)
    → hears f conn.count (make_client loc k conn) ≡ callback_eq f Callback.on_client_closed
unfolding make_client is_listening
hears-make_client f loc k conn = ground arith

-- The first run that listens to a new client.
pub made-IsConsistent :
    (loc : Location) (k : String) (conn : Connection)
    → status conn ≡ ConnectStatus.connecting
    → conn.client_state.pad_hash ≡ k
    → conn.current ≡ Option.none
    → IsAlone conn
    → IsConsistent (listen conn.count (make_client loc k conn))
unfolding listen make_client
made-IsConsistent loc k conn st rm e alone =
    let made = make_client loc k conn in
    let n = conn.count in
    let made_hears = λ (f : Callback). hears-make_client f loc k conn in
    record {
      alone = λ j. ground (arith, alone j);
      settled =
          joining n conn.runs st
            (record {
              current = refl;
              own =
                  hears-listen Callback.on_client_closed n made
                  ∙ made_hears Callback.on_client_closed;
              ends = hears-listen (Callback.on_close conn.runs) n made ∙ ground arith;
            })
            (hears-listen (Callback.on_open conn.runs) n made ∙ ground arith)
            (λ s. ground (
              arith,
              hears-listen (Callback.on_open s) n made,
              hears-listen (Callback.on_error s) n made,
              made_hears (Callback.on_open s),
              made_hears (Callback.on_error s),
            ))
            (λ s. ground (
              arith,
              hears-listen (Callback.on_close s) n made,
              hears-listen (Callback.on_error s) n made,
              made_hears (Callback.on_close s),
              made_hears (Callback.on_error s),
            ))
            (ground arith) (ground (arith, rm));
    }
