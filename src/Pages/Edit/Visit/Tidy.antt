-- ===== src/Pages/Edit/Visit/Tidy.antt =====
-- That a page undoes what it did: its message listeners, and its hold on the room.
use editor_sh.Prelude.{
  ℕ, suc, ◌+◌, ◌≤◌, true, false, List, [], ◌∷◌, ◌++◌, ◌==◌, if◌then◌else◌, foldl, ◌≡◌, refl, ap,
  sym, ◌∙◌, subst, arith, ◌⊎◌, inl, inr, Bool-cases,
}
use mathlib.Core.List.{append_assoc}
use editor_sh.Service.Endpoint.{Location}
use editor_sh.Service.Message.Registry.{
  MessageListeners, add_message_listener, remove_message_listener,
}
use editor_sh.Service.Message.Calls.{
  IsInStep, add, remove, count, register-IsInStep, count-register,
}
use editor_sh.Pages.Edit.Channels.{Attachment}
use editor_sh.Pages.Edit.Visit.{
  Visit, Subscription, client_state, language_state, dispatch_disconnect, remove_listener,
  on_created, unsubscribe, on_destroy,
}

-- The message listeners of the client `c` that the subscriptions will remove, in their order
abbrev pub removals : ℕ → List Subscription → List ℕ
removals c [] = []
removals c (remove_listener d l ∷ ss) = if d == c then l ∷ removals c ss else removals c ss
removals c (_ ∷ ss) = removals c ss

-- The message listeners that terminals were given for the client `c`
abbrev pub terminal_listeners : ℕ → List Attachment → List ℕ
terminal_listeners c [] = []
terminal_listeners c (a ∷ later) =
    if a.client == c then a.listener ∷ terminal_listeners c later else terminal_listeners c later

-- How often a listener stands in a list
abbrev pub times : ℕ → List ℕ → ℕ
times l [] = 0
times l (k ∷ ks) = if k == l then suc (times l ks) else times l ks

-- The listeners of a client are those that are to be removed and some of its terminals, and its
-- socket calls no others.
pub record IsTidy (c : ℕ) (ls : MessageListeners) (ss : List Subscription) (cs : List Attachment)
    : Type 0 where
  pub known :
      (l : ℕ)
      → count l ls.message_listeners ≤ times l (removals c ss) + times l (terminal_listeners c cs)
  pub in_step : IsInStep ls

times-append : (l : ℕ) (ks ms : List ℕ) → times l (ks ++ ms) ≡ times l ks + times l ms
times-append l [] ms = omega arith
times-append l (k ∷ ks) ms = ground (arith, times-append l ks ms)

removals-append :
    (c : ℕ) (ss ts : List Subscription) → removals c (ss ++ ts) ≡ removals c ss ++ removals c ts
removals-append c [] ts = refl
removals-append c (client_state ∷ ss) ts = removals-append c ss ts
removals-append c (language_state ∷ ss) ts = removals-append c ss ts
removals-append c (dispatch_disconnect ∷ ss) ts = removals-append c ss ts
removals-append c (remove_listener d l ∷ ss) ts = ground (arith, removals-append c ss ts)

pub times-removals_append :
    (l c : ℕ) (ss ts : List Subscription)
    → times l (removals c (ss ++ ts)) ≡ times l (removals c ss) + times l (removals c ts)
times-removals_append l c ss ts =
    ap (times l) (removals-append c ss ts) ∙ times-append l (removals c ss) (removals c ts)

pub times-terminal_append :
    (l c : ℕ) (cs bs : List Attachment)
    → times l (terminal_listeners c (cs ++ bs))
      ≡ times l (terminal_listeners c cs) + times l (terminal_listeners c bs)
times-terminal_append l c [] bs = omega arith
times-terminal_append l c (a ∷ cs) bs = ground (arith, times-terminal_append l c cs bs)

-- A removal of any listener
pub remove-IsTidy :
    (c l : ℕ) (ls : MessageListeners) (ss : List Subscription) (cs : List Attachment)
    → IsTidy c ls ss cs
    → IsTidy c (remove_message_listener l ls) ss cs
remove-IsTidy c l ls ss cs h = record {
  known = λ k. ground (arith, count-register k ls (remove l), h.known k);
  in_step = register-IsInStep ls (remove l) h.in_step;
}

-- A removal of one that is to be removed
undo-IsTidy :
    (c l : ℕ) (ls : MessageListeners) (ss : List Subscription) (cs : List Attachment)
    → IsTidy c ls (remove_listener c l ∷ ss) cs
    → IsTidy c (remove_message_listener l ls) ss cs
undo-IsTidy c l ls ss cs h = record {
  known = λ k. ground (arith, count-register k ls (remove l), h.known k);
  in_step = register-IsInStep ls (remove l) h.in_step;
}

pub ℕ-cases : (c d : ℕ) → ((c ≡ d) × ((c == d) ≡ true)) ⊎ (((c == d) ≡ false) × ((d == c) ≡ false))
ℕ-cases c d = elim (Bool-cases (c == d)) [
  | inl e ↦ inl (ground arith, e)
  | inr e ↦ inr (e, ground arith)
]

-- More subscriptions
pub grow-IsTidy :
    (c : ℕ) (ls : MessageListeners) (ss ts : List Subscription) (cs : List Attachment)
    → IsTidy c ls ss cs
    → IsTidy c ls (ss ++ ts) cs
grow-IsTidy c ls ss ts cs h = record {
  known = λ k. omega (arith, h.known k, times-removals_append k c ss ts);
  in_step = h.in_step;
}

-- A listener that is added, with the subscription that removes it
add-IsTidy :
    (c l : ℕ) (ls : MessageListeners) (ss : List Subscription) (cs : List Attachment)
    → IsTidy c ls ss cs
    → IsTidy c (add_message_listener l ls) (ss ++ (remove_listener c l ∷ [])) cs
add-IsTidy c l ls ss cs h = record {
  known = λ k. ground (
    arith,
    count-register k ls (add l),
    h.known k,
    times-removals_append k c ss (remove_listener c l ∷ []),
  );
  in_step = register-IsInStep ls (add l) h.in_step;
}

unsubscribe-IsTidy :
    (loc : Location) (c : ℕ) (s : Subscription) (ss : List Subscription) (v : Visit)
    → IsTidy c (v.messages c) (s ∷ ss) v.attachments
    → let after = unsubscribe loc v s in IsTidy c (after.messages c) ss after.attachments
unfolding unsubscribe
unsubscribe-IsTidy loc c client_state ss v h = record { known = h.known; in_step = h.in_step }
unsubscribe-IsTidy loc c language_state ss v h = record { known = h.known; in_step = h.in_step }
unsubscribe-IsTidy loc c dispatch_disconnect ss v h = record {
  known = h.known;
  in_step = h.in_step;
}
unsubscribe-IsTidy loc c (remove_listener d l) ss v h = elim (ℕ-cases c d) [
  | inl (same, e) ↦ rw e (
      subst (λ n. IsTidy c (remove_message_listener l (v.messages n)) ss v.attachments) same
        (undo-IsTidy c l (v.messages c) ss v.attachments (
          subst (λ n. IsTidy c (v.messages c) (remove_listener n l ∷ ss) v.attachments) (sym same)
            h)))
  | inr other ↦
      rw other.0 (record { known = λ k. ground (arith, h.known k, other.1); in_step = h.in_step })
]

foldl-unsubscribe-IsTidy :
    (loc : Location) (c : ℕ) (ss : List Subscription) (v : Visit)
    → IsTidy c (v.messages c) ss v.attachments
    → let after = foldl (unsubscribe loc) v ss in IsTidy c (after.messages c) [] after.attachments
foldl-unsubscribe-IsTidy loc c [] v h = h
foldl-unsubscribe-IsTidy loc c (s ∷ ss) v h =
    foldl-unsubscribe-IsTidy loc c ss (unsubscribe loc v s) (unsubscribe-IsTidy loc c s ss v h)

pub on_destroy-IsTidy :
    (loc : Location) (c : ℕ) (v : Visit)
    → IsTidy c (v.messages c) v.page.subscriptions v.attachments
    → let after = on_destroy loc v in IsTidy c (after.messages c) [] after.attachments
unfolding on_destroy
on_destroy-IsTidy loc c v h = foldl-unsubscribe-IsTidy loc c v.page.subscriptions v h

created-IsTidy :
    (c l : ℕ) (ls : MessageListeners) (ss : List Subscription) (cs : List Attachment)
    → IsTidy c ls ss cs
    → IsTidy c
        (add_message_listener (l + 1) (add_message_listener l ls))
        (ss ++ dispatch_disconnect ∷ remove_listener c l ∷ remove_listener c (l + 1) ∷ [])
        cs
created-IsTidy c l ls ss cs h =
    let ts = ss ++ (dispatch_disconnect ∷ []) in
    let us = ts ++ (remove_listener c l ∷ []) in
    let held = grow-IsTidy c ls ss (dispatch_disconnect ∷ []) cs h in
    let both =
      add-IsTidy c (l + 1) (add_message_listener l ls) us cs (add-IsTidy c l ls ts cs held) in
    subst (λ ts. IsTidy c (add_message_listener (l + 1) (add_message_listener l ls)) ts cs)
      (simp append_assoc) both

pub on_created-IsTidy :
    (c d : ℕ) (v : Visit)
    → IsTidy c (v.messages c) v.page.subscriptions v.attachments
    → let after = on_created d v in
      IsTidy c (after.messages c) after.page.subscriptions after.attachments
unfolding on_created
on_created-IsTidy c d v h = elim (ℕ-cases c d) [
  | inl (same, e) ↦ rw e (
      subst
        (λ n.
          IsTidy c
            (add_message_listener (v.closures + 1) (add_message_listener v.closures (v.messages n)))
            (v.page.subscriptions
              ++ dispatch_disconnect
                ∷ remove_listener n v.closures
                ∷ remove_listener n (v.closures + 1)
                ∷ [])
            v.attachments)
        same (created-IsTidy c v.closures (v.messages c) v.page.subscriptions v.attachments h))
  | inr other ↦ rw other.0 (
      grow-IsTidy c (v.messages c) v.page.subscriptions
        (dispatch_disconnect
          ∷ remove_listener d v.closures
          ∷ remove_listener d (v.closures + 1)
          ∷ [])
        v.attachments h)
]
