-- ===== src/Pages/Edit/Visit/Fresh.antt =====
-- That the listeners of a client are all different: those that the page will remove and those of its
-- terminals.
use editor_sh.Prelude.{
  ℕ, ◌+◌, ◌≤◌, List, [], ◌∷◌, ◌++◌, foldl, ◌&&◌, not, ◌≡◌, refl, arith, inl, inr, Bool-cases,
  Option-cases,
}
use editor_sh.Service.Endpoint.{Location}
use editor_sh.Store.Codepad.{ConnectStatus, status_eq}
use editor_sh.Store.Codepad.Connection.{status, Input, step}
use editor_sh.Pages.Edit.Channels.{Attachment}
use editor_sh.Pages.Edit.Visit.{
  Visit, Subscription, client_state, language_state, dispatch_disconnect, remove_listener,
  on_created, unsubscribe, on_destroy, terminado_attach, on_client_state_changed,
  hears_client_state, conn_step, told,
}
use editor_sh.Pages.Edit.Visit.Tidy.{
  removals, terminal_listeners, times, times-removals_append, times-terminal_append,
}

-- None stands there twice, and none from `next` on.
pub record IsFresh (c : ℕ) (ss : List Subscription) (cs : List Attachment) (next : ℕ) : Type 0 where
  pub once : (l : ℕ) → times l (removals c ss) + times l (terminal_listeners c cs) ≤ 1
  pub unused : (l : ℕ) → next ≤ l → times l (removals c ss) + times l (terminal_listeners c cs) ≡ 0

pub grow-IsFresh :
    (c next : ℕ) (ss ts : List Subscription) (cs : List Attachment)
    → removals c ts ≡ []
    → IsFresh c ss cs next
    → IsFresh c (ss ++ ts) cs next
grow-IsFresh c next ss ts cs e h = record {
  once = λ l. ground (arith, h.once l, times-removals_append l c ss ts, e);
  unused = λ l n. ground (arith, h.unused l n, times-removals_append l c ss ts, e);
}

pub on_created-IsFresh :
    (c d : ℕ) (v : Visit)
    → IsFresh c v.page.subscriptions v.attachments v.closures
    → let after = on_created d v in
      IsFresh c after.page.subscriptions after.attachments after.closures
unfolding on_created
on_created-IsFresh c d v h =
    let n = v.closures in
    let ts = dispatch_disconnect ∷ remove_listener d n ∷ remove_listener d (n + 1) ∷ [] in
    record {
      once = λ l.
          ground (arith, h.once l, h.unused l, times-removals_append l c v.page.subscriptions ts);
      unused =
          λ l k. ground (arith, h.unused l, k, times-removals_append l c v.page.subscriptions ts);
    }

pub terminado_attach-IsFresh :
    (c d : ℕ) (v : Visit)
    → IsFresh c v.page.subscriptions v.attachments v.closures
    → let after = terminado_attach d v in
      IsFresh c after.page.subscriptions after.attachments after.closures
unfolding terminado_attach
terminado_attach-IsFresh c d v h =
    let a : Attachment = record { terminal = v.terminal; client = d; listener = v.closures } in
    record {
      once = λ l.
          ground (arith, h.once l, h.unused l, times-terminal_append l c v.attachments (a ∷ []));
      unused =
          λ l k. ground (arith, h.unused l, k, times-terminal_append l c v.attachments (a ∷ []));
    }

pub on_client_state_changed-IsFresh :
    (c : ℕ) (v : Visit)
    → IsFresh c v.page.subscriptions v.attachments v.closures
    → let after = on_client_state_changed v in
      IsFresh c after.page.subscriptions after.attachments after.closures
unfolding on_client_state_changed
on_client_state_changed-IsFresh c v h =
    elim (Bool-cases (status_eq (status v.conn) ConnectStatus.connected)) [
      | inl e ↦ elim (Option-cases v.conn.current) [
        | inl none_there ↦ rw (e, none_there) h
        | inr (d, there) ↦ rw (e, there) (terminado_attach-IsFresh c d v h)
      ]
      | inr e ↦ rw e h
    ]

pub conn_step-IsFresh :
    (loc : Location) (input : Input) (c : ℕ) (v : Visit)
    → IsFresh c v.page.subscriptions v.attachments v.closures
    → let after = conn_step loc input v in
      IsFresh c after.page.subscriptions after.attachments after.closures
unfolding conn_step
conn_step-IsFresh loc input c v h =
    let after = record v { conn = step loc v.conn input; messages = told input v } in
    elim (Bool-cases (
      hears_client_state v.page.subscriptions
      && not (status_eq (status v.conn) ConnectStatus.connected))) [
        | inl e ↦ rw e (on_client_state_changed-IsFresh c after h)
        | inr e ↦ rw e h
      ]

unsubscribe-IsFresh :
    (loc : Location) (c : ℕ) (s : Subscription) (ss : List Subscription) (v : Visit)
    → IsFresh c (s ∷ ss) v.attachments v.closures
    → let after = unsubscribe loc v s in IsFresh c ss after.attachments after.closures
unfolding unsubscribe
unsubscribe-IsFresh loc c client_state ss v h = record { once = h.once; unused = h.unused }
unsubscribe-IsFresh loc c language_state ss v h = record { once = h.once; unused = h.unused }
unsubscribe-IsFresh loc c dispatch_disconnect ss v h = record { once = h.once; unused = h.unused }
unsubscribe-IsFresh loc c (remove_listener d k) ss v h = record {
  once = λ l. ground (arith, h.once l);
  unused = λ l n. ground (arith, h.unused l n);
}

foldl-unsubscribe-IsFresh :
    (loc : Location) (c : ℕ) (ss : List Subscription) (v : Visit)
    → IsFresh c ss v.attachments v.closures
    → let after = foldl (unsubscribe loc) v ss in IsFresh c [] after.attachments after.closures
foldl-unsubscribe-IsFresh loc c [] v h = h
foldl-unsubscribe-IsFresh loc c (s ∷ ss) v h =
    foldl-unsubscribe-IsFresh loc c ss (unsubscribe loc v s) (unsubscribe-IsFresh loc c s ss v h)

pub on_destroy-IsFresh :
    (loc : Location) (c : ℕ) (v : Visit)
    → IsFresh c v.page.subscriptions v.attachments v.closures
    → let after = on_destroy loc v in IsFresh c [] after.attachments after.closures
unfolding on_destroy
on_destroy-IsFresh loc c v h = foldl-unsubscribe-IsFresh loc c v.page.subscriptions v h

foldl-unsubscribe-attachments :
    (loc : Location) (ss : List Subscription) (v : Visit)
    → (foldl (unsubscribe loc) v ss).attachments ≡ v.attachments
unfolding unsubscribe
foldl-unsubscribe-attachments loc [] v = refl
foldl-unsubscribe-attachments loc (client_state ∷ ss) v = foldl-unsubscribe-attachments loc ss v
foldl-unsubscribe-attachments loc (language_state ∷ ss) v = foldl-unsubscribe-attachments loc ss v
foldl-unsubscribe-attachments loc (dispatch_disconnect ∷ ss) v =
    foldl-unsubscribe-attachments loc ss (unsubscribe loc v dispatch_disconnect)
foldl-unsubscribe-attachments loc (remove_listener c l ∷ ss) v =
    foldl-unsubscribe-attachments loc ss (unsubscribe loc v (remove_listener c l))

pub on_destroy-attachments :
    (loc : Location) (v : Visit) → (on_destroy loc v).attachments ≡ v.attachments
unfolding on_destroy
on_destroy-attachments loc v = foldl-unsubscribe-attachments loc v.page.subscriptions v
