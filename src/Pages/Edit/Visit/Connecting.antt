-- ===== src/Pages/Edit/Visit/Connecting.antt =====
-- That the mounting of a page, with its connect, keeps it orderly.
use editor_sh.Prelude.{
  ℕ, String, Bool, true, false, not, ◌||◌, Option, none, some, List, [], ◌∷◌, ◌++◌, if◌then◌else◌,
  ◌≡◌, refl, arith, ◌⊎◌, inl, inr,
}
use editor_sh.Service.Endpoint.{Location}
use editor_sh.Store.Codepad.{ConnectStatus, client_state_reducer}
use editor_sh.Store.Codepad.Connection.{
  Connection, status, connect, step, connect_effect, create_client,
}
use editor_sh.Store.Codepad.Connection.Rest.{is_busy}
use editor_sh.Store.Codepad.Consistency.{
  IsConsistent, IsSettled, idle, ended, stuck, joining, joined, leaving,
}
use editor_sh.Store.Codepad.Consistency.Steps.{connect_ignored}
use editor_sh.Store.Codepad.Consistency.Runs.{step-IsConsistent}
use editor_sh.Pages.Edit.Visit.{
  Visit, Subscription, client_state, language_state, dispatch_disconnect, remove_listener,
  on_created, conn_step, connect_codepad_service, on_did_mount, on_client_state_changed, called,
  call_back, subscribe, follow_store, terminado_attach,
}
use editor_sh.Pages.Edit.Visit.Tidy.{removals, IsTidy, grow-IsTidy, on_created-IsTidy}
use editor_sh.Pages.Edit.Visit.Fresh.{
  IsFresh, grow-IsFresh, on_created-IsFresh, on_client_state_changed-IsFresh, conn_step-IsFresh,
}
use editor_sh.Pages.Edit.Visit.Attaching.{conn_step-IsTidy, on_client_state_changed-IsTidy}
use editor_sh.Pages.Edit.Visit.Orderly.{holds_room, IsOrderly, conn_step-conn, conn_step-page}

connect_idle_called :
    (loc : Location) (key : String) (conn : Connection)
    → (status conn ≡ ConnectStatus.none) ⊎ (status conn ≡ ConnectStatus.closed)
    → conn.current ≡ none
    → called conn (step loc conn (connect key (some 0))) ≡ some conn.count
unfolding step connect_effect create_client client_state_reducer
connect_idle_called loc key conn st e = ground arith

-- A connect of a store at rest that does not call `onCreated` leaves it at rest.
connect_uncalled :
    (loc : Location) (key : String) (conn : Connection)
    → IsSettled conn
    → called conn (step loc conn (connect key (some 0))) ≡ none
    → is_busy (status (step loc conn (connect key (some 0)))) ≡ true
    → is_busy (status conn) ≡ true
connect_uncalled loc key conn (idle st e) n b = cc (connect_idle_called loc key conn (inl st) e, n)
connect_uncalled loc key conn (ended st e) n b = cc (connect_idle_called loc key conn (inr st) e, n)
connect_uncalled loc key conn (stuck st e) n b =
    rw (connect_ignored loc key (some 0) conn (inr st)) at b
connect_uncalled loc key conn (joining c r st i o al en rd rm) n b = rw st refl
connect_uncalled loc key conn (joined c r st i deaf rd rm) n b = rw st refl
connect_uncalled loc key conn (leaving c r st i rd) n b =
    rw (connect_ignored loc key (some 0) conn (inr st)) at b

holds_room-append :
    (ss ts : List Subscription) → holds_room (ss ++ ts) ≡ (holds_room ss || holds_room ts)
holds_room-append [] ts = refl
holds_room-append (client_state ∷ ss) ts = holds_room-append ss ts
holds_room-append (language_state ∷ ss) ts = holds_room-append ss ts
holds_room-append (dispatch_disconnect ∷ ss) ts = refl
holds_room-append (remove_listener c l ∷ ss) ts = holds_room-append ss ts

on_created-IsOrderly :
    (c : ℕ) (v : Visit)
    → IsConsistent v.conn
    → ((d : ℕ) → IsTidy d (v.messages d) v.page.subscriptions v.attachments)
    → ((d : ℕ) → IsFresh d v.page.subscriptions v.attachments v.closures)
    → IsOrderly (on_created c v)
unfolding on_created
on_created-IsOrderly c v h t fresh = record {
  consistent = h;
  tidy = λ d. on_created-IsTidy d c v (t d);
  fresh = λ d. on_created-IsFresh d c v (fresh d);
  held = λ b. rw (holds_room-append v.page.subscriptions _) (ground arith);
}

call_back-IsOrderly :
    (o : Option ℕ) (v : Visit)
    → IsConsistent v.conn
    → ((d : ℕ) → IsTidy d (v.messages d) v.page.subscriptions v.attachments)
    → ((d : ℕ) → IsFresh d v.page.subscriptions v.attachments v.closures)
    → (o ≡ none → is_busy (status v.conn) ≡ true → holds_room v.page.subscriptions ≡ true)
    → IsOrderly (call_back o v)
call_back-IsOrderly none v h t fresh held = record {
  consistent = h;
  tidy = t;
  fresh = fresh;
  held = held refl;
}
call_back-IsOrderly (some c) v h t fresh held = on_created-IsOrderly c v h t fresh

connect_codepad_service-IsOrderly :
    (loc : Location) (v : Visit) → IsOrderly v → IsOrderly (connect_codepad_service loc v)
unfolding connect_codepad_service
connect_codepad_service-IsOrderly loc v h =
    let input = connect v.page.room_key (some 0) in
    let same_conn = conn_step-conn loc input v in
    let same_page = conn_step-page loc input v in
    call_back-IsOrderly (called v.conn (conn_step loc input v).conn) (conn_step loc input v)
      (rw same_conn (step-IsConsistent loc input v.conn h.consistent))
      (λ d. conn_step-IsTidy loc input d v (h.tidy d))
      (λ d. conn_step-IsFresh loc input d v (h.fresh d))
      (rw (same_conn, same_page)
        (λ n b. h.held (connect_uncalled loc v.page.room_key v.conn h.consistent.settled n b)))

-- Subscriptions to the store, and channels that are attached
subscribe-IsOrderly :
    (ss : List Subscription) (v : Visit)
    → holds_room ss ≡ false
    → ((c : ℕ) → removals c ss ≡ [])
    → IsOrderly v
    → IsOrderly (subscribe ss v)
subscribe-IsOrderly ss v n r h = record {
  consistent = h.consistent;
  tidy = λ c. grow-IsTidy c (v.messages c) v.page.subscriptions ss v.attachments (h.tidy c);
  fresh = λ c. grow-IsFresh c v.closures v.page.subscriptions ss v.attachments (r c) (h.fresh c);
  held = λ b. rw (holds_room-append v.page.subscriptions ss, h.held b) refl;
}

on_client_state_changed-rest :
    (v : Visit)
    → ((on_client_state_changed v).conn ≡ v.conn) × ((on_client_state_changed v).page ≡ v.page)
unfolding on_client_state_changed terminado_attach
on_client_state_changed-rest v = (ground arith, ground arith)

on_client_state_changed-IsOrderly :
    (v : Visit) → IsOrderly v → IsOrderly (on_client_state_changed v)
on_client_state_changed-IsOrderly v h =
    let (same_conn, same_page) = on_client_state_changed-rest v in
    record {
      consistent = rw same_conn h.consistent;
      tidy = λ c. on_client_state_changed-IsTidy c v (h.tidy c);
      fresh = λ c. on_client_state_changed-IsFresh c v (h.fresh c);
      held = rw (same_conn, same_page) h.held;
    }

follow_store-IsOrderly : (v : Visit) → IsOrderly v → IsOrderly (follow_store v)
unfolding follow_store
follow_store-IsOrderly v h =
    let first = subscribe (client_state ∷ []) v in
    subscribe-IsOrderly (language_state ∷ []) (on_client_state_changed first) refl (λ c. refl)
      (on_client_state_changed-IsOrderly first
        (subscribe-IsOrderly (client_state ∷ []) v refl (λ c. refl) h))

if-IsOrderly : (b : Bool) (v w : Visit) → IsOrderly v → IsOrderly w → IsOrderly (if b then v else w)
if-IsOrderly true v w h k = h
if-IsOrderly false v w h k = k

pub on_did_mount-IsOrderly :
    (loc : Location) (v : Visit) → IsOrderly v → IsOrderly (on_did_mount loc v)
unfolding on_did_mount
on_did_mount-IsOrderly loc v h = if-IsOrderly (not v.page.editor_mounted) v _ h (
    if-IsOrderly (not v.page.terminal_mounted) v _ h
      (connect_codepad_service-IsOrderly loc (follow_store v) (follow_store-IsOrderly v h)))
