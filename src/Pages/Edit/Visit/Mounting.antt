-- ===== src/Pages/Edit/Visit/Mounting.antt =====
-- How the parts of an edit page come together.
use editor_sh.Prelude.{
  ℕ, ◌+◌, String, Bool, true, false, none, some, List, [], ◌∷◌, ◌++◌, ◌≡◌, refl, arith, subst, ap,
  ◌∙◌, ◌⊎◌,
}
use editor_sh.Service.Endpoint.{Location}
use editor_sh.Service.Client.{EventType, ReadyState}
use editor_sh.Store.Codepad.{ConnectStatus, client_state_reducer}
use editor_sh.Store.Codepad.Connection.{
  Connection, status, connect, disconnect, socket_opened, socket_ended, step, connect_effect,
  create_client, make_client, listen, fire, set_ready,
}
use editor_sh.Store.Codepad.Connection.Stuck.{left_ends}
use editor_sh.Store.Codepad.Consistency.{
  ready, IsConsistent, IsSettled, idle, ended, stuck, joining, joined, leaving,
}
use editor_sh.Store.Codepad.Consistency.Inputs.{opened_step, by_ready}
use editor_sh.Store.Codepad.Consistency.Sockets.{opened_status}
use editor_sh.Store.Codepad.Consistency.Runs.{same_client, step-IsConsistent}
use editor_sh.Pages.Edit.Visit.Orderly.{conn_step-conn, conn_step-page}
use editor_sh.Pages.Edit.Visit.{
  Visit, EditPage, Subscription, client_state, language_state, dispatch_disconnect, remove_listener,
  open_page, on_created, on_editor_did_mount, on_terminal_did_mount, conn_step, turn_to, mount,
  on_destroy, unsubscribe,
}

-- The order in which the two parts are mounted does not matter, and the first changes nothing but its mark.
pub mount_order :
    (loc : Location) (key : String) (v : Visit)
    → mount true loc (turn_to key v) ≡ mount false loc (turn_to key v)
unfolding on_editor_did_mount on_terminal_did_mount open_page
mount_order loc key v = refl

-- A page that mounts while no room is joined.
pub mount_free :
    (loc : Location) (key : String) (first : Bool) (v : Visit)
    → (status v.conn ≡ ConnectStatus.none) ⊎ (status v.conn ≡ ConnectStatus.closed)
    → v.conn.current ≡ none
    → mount first loc (turn_to key v)
      ≡ on_created v.conn.count (record v {
        page = record {
          editor_mounted = true;
          terminal_mounted = true;
          room_key = key;
          subscriptions = client_state ∷ language_state ∷ [];
        };
        conn = step loc v.conn (connect key (some 0));
        attached = [];
        terminal = v.terminal + 1;
      })
unfolding on_editor_did_mount on_terminal_did_mount open_page conn_step step connect_effect
    client_state_reducer create_client
mount_free loc key true v st e = ground arith
mount_free loc key false v st e = ground arith

opened_connecting :
    (loc : Location) (c : ℕ) (conn : Connection)
    → ready c conn ≡ ReadyState.connecting
    → step loc conn (socket_opened c) ≡ fire c EventType.opened (set_ready c ReadyState.opened conn)
opened_connecting loc c conn rd =
    opened_step loc c conn
    ∙ ap
        (λ at. by_ready at (fire c EventType.opened (set_ready c ReadyState.opened conn)) conn conn)
        rd

joining_opened :
    (loc : Location) (c : ℕ) (conn : Connection)
    → IsSettled conn
    → status conn ≡ ConnectStatus.connecting
    → conn.current ≡ some c
    → let after = step loc conn (socket_opened c) in
      (status after ≡ ConnectStatus.connected) × (after.current ≡ some c)
joining_opened loc c conn (idle st e) z e' = cc
joining_opened loc c conn (ended st e) z e' = cc
joining_opened loc c conn (stuck st e) z e' = cc
joining_opened loc c conn (joining d r st i o al en rd rm) z e' =
    let (st', i', deaf) = opened_status d r conn st i o al in
    subst
      (λ n.
        (status (step loc conn (socket_opened n)) ≡ ConnectStatus.connected)
        × ((step loc conn (socket_opened n)).current ≡ some n))
      (same_client c d conn e' i.current) (rw (opened_connecting loc d conn rd) (st', i'.current))
joining_opened loc c conn (joined d r st i deaf rd rm) z e' = cc
joining_opened loc c conn (leaving d r st i rd) z e' = cc

free_current :
    (conn : Connection)
    → IsSettled conn
    → (status conn ≡ ConnectStatus.none) ⊎ (status conn ≡ ConnectStatus.closed)
    → conn.current ≡ none
free_current conn (idle st e) z = e
free_current conn (ended st e) z = e
free_current conn (stuck st e) z = e
free_current conn (joining d r st i o al en rd rm) z = ground (arith, z, st)
free_current conn (joined d r st i deaf rd rm) z = ground (arith, z, st)
free_current conn (leaving d r st i rd) z = ground (arith, z, st)

connect_free :
    (loc : Location) (key : String) (conn : Connection)
    → (status conn ≡ ConnectStatus.none) ⊎ (status conn ≡ ConnectStatus.closed)
    → conn.current ≡ none
    → let after = step loc conn (connect key (some 0)) in
      (status after ≡ ConnectStatus.connecting) × (after.current ≡ some conn.count)
unfolding step connect_effect client_state_reducer create_client make_client listen
connect_free loc key conn st e = ground arith

-- The subscriptions of a page whose `onCreated` was called once
abbrev pub full : (c closures : ℕ) → List Subscription
full c closures =
    client_state
    ∷ language_state
    ∷ dispatch_disconnect
    ∷ remove_listener c closures
    ∷ remove_listener c (closures + 1)
    ∷ []

on_destroy-conn :
    (loc : Location) (c n : ℕ) (v : Visit)
    → v.page.subscriptions ≡ full c n
    → (on_destroy loc v).conn ≡ step loc v.conn disconnect
unfolding on_destroy unsubscribe
on_destroy-conn loc c n v e = rw e refl

opened_attached :
    (loc : Location) (c n : ℕ) (v : Visit)
    → v.page.subscriptions ≡ full c n
    → status v.conn ≡ ConnectStatus.connecting
    → status (step loc v.conn (socket_opened c)) ≡ ConnectStatus.connected
    → (step loc v.conn (socket_opened c)).current ≡ some c
    → (conn_step loc (socket_opened c) v).attached ≡ v.attached ++ (c ∷ [])
unfolding conn_step
opened_attached loc c n v e st st' cur = ground arith

visit_from :
    (loc : Location) (n k : ℕ) (v : Visit)
    → v.page.subscriptions ≡ full n k
    → IsConsistent v.conn
    → status v.conn ≡ ConnectStatus.connecting
    → v.conn.current ≡ some n
    → let joined = conn_step loc (socket_opened n) v in
      let after = conn_step loc (socket_ended n) (on_destroy loc joined) in
      ((status joined.conn ≡ ConnectStatus.connected) × (joined.attached ≡ v.attached ++ (n ∷ [])))
      × (status after.conn ≡ ConnectStatus.closed)
      × (after.conn.current ≡ none)
visit_from loc n k v e h st cur =
    let joined = conn_step loc (socket_opened n) v in
    let at = step loc v.conn (socket_opened n) in
    let (st', cur') = joining_opened loc n v.conn h.settled st cur in
    let same : joined.conn ≡ at = conn_step-conn loc (socket_opened n) v in
    let left =
      on_destroy-conn loc n k joined
        (ap (λ (p : EditPage). p.subscriptions) (conn_step-page loc (socket_opened n) v) ∙ e) in
    let after =
      conn_step-conn loc (socket_ended n) (on_destroy loc joined)
      ∙ ap (λ c. step loc c (socket_ended n)) (left ∙ ap (λ c. step loc c disconnect) same) in
    let (closed, free) =
      left_ends loc n at st' cur' (step-IsConsistent loc (socket_opened n) v.conn h) in
    (
      (ap status same ∙ st', opened_attached loc n k v e st st' cur'),
      ap status after ∙ closed,
      ap (λ (c : Connection). c.current) after ∙ free,
    )

-- A whole visit, to a page that is mounted in either order while no room is joined: when the socket
-- of its client opens, the store is connected and the client is attached to the terminal, once; and
-- when the page is destroyed and the socket ends, the store is closed and without a client.
pub whole_visit :
    (loc : Location) (key : String) (first : Bool) (v : Visit)
    → IsConsistent v.conn
    → (status v.conn ≡ ConnectStatus.none) ⊎ (status v.conn ≡ ConnectStatus.closed)
    → let n = v.conn.count in
      let joined = conn_step loc (socket_opened n) (mount first loc (turn_to key v)) in
      let after = conn_step loc (socket_ended n) (on_destroy loc joined) in
      ((status joined.conn ≡ ConnectStatus.connected) × (joined.attached ≡ n ∷ []))
      × (status after.conn ≡ ConnectStatus.closed)
      × (after.conn.current ≡ none)
unfolding on_created
whole_visit loc key first v h st =
    let n = v.conn.count in
    let free = free_current v.conn h.settled st in
    let (joins, cur) = connect_free loc key v.conn st free in
    rw (mount_free loc key first v st free) (
      visit_from loc n v.closures _ refl (step-IsConsistent loc (connect key (some 0)) v.conn h)
        joins cur)
