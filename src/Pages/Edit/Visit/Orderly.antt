-- ===== src/Pages/Edit/Visit/Orderly.antt =====
-- What holds of a page and the connection at any time, that the sockets keep it, and that the
-- destruction of a page does.
use editor_sh.Prelude.{
  ℕ, String, Bool, true, false, List, [], ◌∷◌, foldl, ◌≡◌, refl, arith, inl, inr, Bool-cases,
}
use editor_sh.Service.Endpoint.{Location}
use editor_sh.Store.Codepad.Connection.{Connection, status, Input, disconnect, step}
use editor_sh.Store.Codepad.Connection.Rest.{
  is_busy, is_socket_event, step-IsResting, disconnect-rest,
}
use editor_sh.Store.Codepad.Consistency.{IsConsistent}
use editor_sh.Store.Codepad.Consistency.Runs.{step-IsConsistent}
use editor_sh.Pages.Edit.Visit.{
  Visit, Subscription, client_state, language_state, dispatch_disconnect, remove_listener,
  open_page, unsubscribe, on_destroy, conn_step, on_client_state_changed, terminado_attach, turn_to,
}
use editor_sh.Pages.Edit.Visit.Tidy.{IsTidy, on_destroy-IsTidy}
use editor_sh.Pages.Edit.Visit.Attaching.{conn_step-IsTidy}
use editor_sh.Pages.Edit.Visit.Fresh.{IsFresh, conn_step-IsFresh, on_destroy-IsFresh}

abbrev pub holds_room : List Subscription → Bool
holds_room [] = false
holds_room (dispatch_disconnect ∷ ss) = true
holds_room (_ ∷ ss) = holds_room ss

-- The connection is consistent, the listeners of a client are different, every listener of a client is one that the page will remove or one
-- of a terminal, and a room that is joined or being joined is one that the page will leave.
pub record IsOrderly (v : Visit) : Type 0 where
  pub consistent : IsConsistent v.conn
  pub tidy : (c : ℕ) → IsTidy c (v.messages c) v.page.subscriptions v.attachments
  pub fresh : (c : ℕ) → IsFresh c v.page.subscriptions v.attachments v.closures
  pub held : is_busy (status v.conn) ≡ true → holds_room v.page.subscriptions ≡ true

pub conn_step-conn :
    (loc : Location) (input : Input) (v : Visit)
    → (conn_step loc input v).conn ≡ step loc v.conn input
unfolding conn_step on_client_state_changed terminado_attach
conn_step-conn loc input v = ground arith

pub conn_step-page :
    (loc : Location) (input : Input) (v : Visit) → (conn_step loc input v).page ≡ v.page
unfolding conn_step on_client_state_changed terminado_attach
conn_step-page loc input v = ground arith

-- A room that is joined after an event of a socket was joined, or being joined, before it.
busy_before :
    (loc : Location) (input : Input) (conn : Connection)
    → is_socket_event input ≡ true
    → is_busy (status (step loc conn input)) ≡ true
    → is_busy (status conn) ≡ true
busy_before loc input conn s b = elim (Bool-cases (is_busy (status conn))) [
  | inl e ↦ e
  | inr e ↦
      let r = step-IsResting loc conn.created input conn s (record { at_rest = e; same = refl }) in
      cc (r.at_rest, b)
]

pub socket-IsOrderly :
    (loc : Location) (input : Input) (v : Visit)
    → is_socket_event input ≡ true
    → IsOrderly v
    → IsOrderly (conn_step loc input v)
socket-IsOrderly loc input v s h = record {
  consistent = rw (conn_step-conn loc input v) (step-IsConsistent loc input v.conn h.consistent);
  tidy = λ c. conn_step-IsTidy loc input c v (h.tidy c);
  fresh = λ c. conn_step-IsFresh loc input c v (h.fresh c);
  held =
      rw (conn_step-page loc input v, conn_step-conn loc input v)
        (λ b. h.held (busy_before loc input v.conn s b));
}

unsubscribe-rest :
    (loc : Location) (s : Subscription) (v : Visit)
    → is_busy (status v.conn) ≡ false
    → is_busy (status (unsubscribe loc v s).conn) ≡ false
unfolding unsubscribe
unsubscribe-rest loc client_state v h = h
unsubscribe-rest loc language_state v h = h
unsubscribe-rest loc dispatch_disconnect v h = disconnect-rest loc v.conn
unsubscribe-rest loc (remove_listener c l) v h = h

foldl-unsubscribe-rest :
    (loc : Location) (ss : List Subscription) (v : Visit)
    → (is_busy (status v.conn) ≡ true → holds_room ss ≡ true)
    → is_busy (status (foldl (unsubscribe loc) v ss).conn) ≡ false
unfolding unsubscribe
foldl-unsubscribe-rest loc [] v h = elim (Bool-cases (is_busy (status v.conn))) [
  | inl e ↦ cc (h e)
  | inr e ↦ e
]
foldl-unsubscribe-rest loc (client_state ∷ ss) v h = foldl-unsubscribe-rest loc ss v h
foldl-unsubscribe-rest loc (language_state ∷ ss) v h = foldl-unsubscribe-rest loc ss v h
foldl-unsubscribe-rest loc (dispatch_disconnect ∷ ss) v h =
    foldl-unsubscribe-rest loc ss (unsubscribe loc v dispatch_disconnect)
      (λ b. cc (b, disconnect-rest loc v.conn))
foldl-unsubscribe-rest loc (remove_listener c l ∷ ss) v h =
    foldl-unsubscribe-rest loc ss (unsubscribe loc v (remove_listener c l)) h

unsubscribe-IsConsistent :
    (loc : Location) (ss : List Subscription) (v : Visit)
    → IsConsistent v.conn
    → IsConsistent (foldl (unsubscribe loc) v ss).conn
unfolding unsubscribe
unsubscribe-IsConsistent loc [] v h = h
unsubscribe-IsConsistent loc (client_state ∷ ss) v h = unsubscribe-IsConsistent loc ss v h
unsubscribe-IsConsistent loc (language_state ∷ ss) v h = unsubscribe-IsConsistent loc ss v h
unsubscribe-IsConsistent loc (dispatch_disconnect ∷ ss) v h =
    unsubscribe-IsConsistent loc ss (unsubscribe loc v dispatch_disconnect)
      (step-IsConsistent loc disconnect v.conn h)
unsubscribe-IsConsistent loc (remove_listener c l ∷ ss) v h =
    unsubscribe-IsConsistent loc ss (unsubscribe loc v (remove_listener c l)) h

-- After a page that is destroyed the store is at rest.
pub on_destroy-rest :
    (loc : Location) (v : Visit) → IsOrderly v → is_busy (status (on_destroy loc v).conn) ≡ false
unfolding on_destroy
on_destroy-rest loc v h = foldl-unsubscribe-rest loc v.page.subscriptions v h.held

pub on_destroy-subscriptions :
    (loc : Location) (v : Visit) → (on_destroy loc v).page.subscriptions ≡ []
unfolding on_destroy
on_destroy-subscriptions loc v = refl

pub on_destroy-IsOrderly : (loc : Location) (v : Visit) → IsOrderly v → IsOrderly (on_destroy loc v)
unfolding on_destroy
on_destroy-IsOrderly loc v h = record {
  consistent = unsubscribe-IsConsistent loc v.page.subscriptions v h.consistent;
  tidy = λ c. on_destroy-IsTidy loc c v (h.tidy c);
  fresh = λ c. on_destroy-IsFresh loc c v (h.fresh c);
  held = λ b. cc (b, on_destroy-rest loc v h);
}

pub turn_to-IsOrderly :
    (key : String) (v : Visit) → v.page.subscriptions ≡ [] → IsOrderly v → IsOrderly (turn_to key v)
unfolding open_page
turn_to-IsOrderly key v e h = record {
  consistent = h.consistent;
  tidy = λ c. rw (← e) (h.tidy c);
  fresh = λ c. rw (← e) (h.fresh c);
  held = λ b. rw e at (h.held b);
}
