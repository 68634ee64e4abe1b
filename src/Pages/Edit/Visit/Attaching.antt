-- ===== src/Pages/Edit/Visit/Attaching.antt =====
-- That the channels between the terminals and the clients keep a client tidy, when they are attached
-- and when they hear that a socket has ended.
use editor_sh.Prelude.{
  ℕ, ◌&&◌, not, List, [], ◌∷◌, ◌++◌, ◌==◌, if◌then◌else◌, foldl, subst, arith, inl, inr, Bool-cases,
  Option-cases,
}
use editor_sh.Service.Endpoint.{Location}
use editor_sh.Service.Message.Registry.{MessageListeners, add_message_listener}
use editor_sh.Service.Message.Calls.{add, register-IsInStep, count-register}
use editor_sh.Store.Codepad.{ConnectStatus, status_eq}
use editor_sh.Store.Codepad.Connection.{status, Input, step}
use editor_sh.Pages.Edit.Channels.{Attachment, get_message, terminado_detach, tell}
use editor_sh.Pages.Edit.Visit.{
  Visit, Subscription, terminado_attach, told, hearing, on_client_state_changed, hears_client_state,
  conn_step,
}
use editor_sh.Pages.Edit.Visit.Tidy.{IsTidy, times-terminal_append, remove-IsTidy, ℕ-cases}

-- More channels
more-IsTidy :
    (c : ℕ) (ls : MessageListeners) (ss : List Subscription) (cs ds : List Attachment)
    → IsTidy c ls ss cs
    → IsTidy c ls ss (cs ++ ds)
more-IsTidy c ls ss cs ds h = record {
  known = λ k. omega (arith, h.known k, times-terminal_append k c cs ds);
  in_step = h.in_step;
}

given-IsTidy :
    (c t l : ℕ) (ls : MessageListeners) (ss : List Subscription) (cs : List Attachment)
    → IsTidy c ls ss cs
    → IsTidy c
        (add_message_listener l ls)
        ss
        (cs ++ (record { terminal = t; client = c; listener = l } ∷ []))
given-IsTidy c t l ls ss cs h =
    let a : Attachment = record { terminal = t; client = c; listener = l } in
    record {
      known = λ k.
          ground
            (arith, count-register k ls (add l), h.known k, times-terminal_append k c cs (a ∷ []));
      in_step = register-IsInStep ls (add l) h.in_step;
    }

pub terminado_attach-IsTidy :
    (c d : ℕ) (v : Visit)
    → IsTidy c (v.messages c) v.page.subscriptions v.attachments
    → let after = terminado_attach d v in
      IsTidy c (after.messages c) after.page.subscriptions after.attachments
unfolding terminado_attach
terminado_attach-IsTidy c d v h = elim (ℕ-cases c d) [
  | inl (same, e) ↦ rw e (
      subst
        (λ n. IsTidy c (add_message_listener v.closures (v.messages n)) v.page.subscriptions (
          v.attachments
          ++ (record { terminal = v.terminal; client = n; listener = v.closures } ∷ [])))
        same
        (given-IsTidy c v.terminal v.closures (v.messages c) v.page.subscriptions v.attachments h))
  | inr other ↦ rw other.0 (
      more-IsTidy c (v.messages c) v.page.subscriptions v.attachments
        (record { terminal = v.terminal; client = d; listener = v.closures } ∷ []) h)
]

terminado_detach-IsTidy :
    (all cs : List Attachment) (ms : ℕ → MessageListeners) (a : Attachment) (c : ℕ)
    (ss : List Subscription)
    → IsTidy c (ms c) ss cs
    → IsTidy c (terminado_detach all ms a c) ss cs
unfolding terminado_detach
terminado_detach-IsTidy all cs ms a c ss h = elim (Option-cases (get_message a.terminal all)) [
  | inl e ↦ rw (e, terminado_detach) h
  | inr (l, e) ↦ elim (Bool-cases (c == a.client)) [
    | inl same ↦ rw (e, terminado_detach, same) (remove-IsTidy c l (ms c) ss cs h)
    | inr other ↦ rw (e, terminado_detach, other) h
  ]
]

tell-IsTidy :
    (all rest cs : List Attachment) (ms : ℕ → MessageListeners) (d c : ℕ) (ss : List Subscription)
    → IsTidy c (ms c) ss cs
    → IsTidy c
        (foldl (λ ms a. if a.client == d then terminado_detach all ms a else ms) ms rest c)
        ss
        cs
tell-IsTidy all [] cs ms d c ss h = h
tell-IsTidy all (a ∷ rest) cs ms d c ss h = elim (Bool-cases (a.client == d)) [
  | inl e ↦ rw e (
      tell-IsTidy all rest cs (terminado_detach all ms a) d c ss
        (terminado_detach-IsTidy all cs ms a c ss h))
  | inr e ↦ rw e (tell-IsTidy all rest cs ms d c ss h)
]

tell_all-IsTidy :
    (all cs : List Attachment) (ds : List ℕ) (ms : ℕ → MessageListeners) (c : ℕ)
    (ss : List Subscription)
    → IsTidy c (ms c) ss cs
    → IsTidy c (foldl (tell all) ms ds c) ss cs
tell_all-IsTidy all cs [] ms c ss h = h
tell_all-IsTidy all cs (d ∷ ds) ms c ss h =
    tell_all-IsTidy all cs ds (tell all ms d) c ss (tell-IsTidy all all cs ms d c ss h)

pub told-IsTidy :
    (input : Input) (v : Visit) (c : ℕ) (ss : List Subscription)
    → IsTidy c (v.messages c) ss v.attachments
    → IsTidy c (told input v c) ss v.attachments
told-IsTidy input v c ss h =
    tell_all-IsTidy v.attachments v.attachments (hearing v.conn input) v.messages c ss h

pub on_client_state_changed-IsTidy :
    (c : ℕ) (v : Visit)
    → IsTidy c (v.messages c) v.page.subscriptions v.attachments
    → let after = on_client_state_changed v in
      IsTidy c (after.messages c) after.page.subscriptions after.attachments
unfolding on_client_state_changed
on_client_state_changed-IsTidy c v h =
    elim (Bool-cases (status_eq (status v.conn) ConnectStatus.connected)) [
      | inl e ↦ elim (Option-cases v.conn.current) [
        | inl none_there ↦ rw (e, none_there) h
        | inr (d, there) ↦ rw (e, there) (terminado_attach-IsTidy c d v h)
      ]
      | inr e ↦ rw e h
    ]

pub conn_step-IsTidy :
    (loc : Location) (input : Input) (c : ℕ) (v : Visit)
    → IsTidy c (v.messages c) v.page.subscriptions v.attachments
    → let after = conn_step loc input v in
      IsTidy c (after.messages c) after.page.subscriptions after.attachments
unfolding conn_step
conn_step-IsTidy loc input c v h =
    let after = record v { conn = step loc v.conn input; messages = told input v } in
    let tidy : IsTidy c (after.messages c) after.page.subscriptions after.attachments =
      told-IsTidy input v c v.page.subscriptions h in
    elim (Bool-cases (
      hears_client_state v.page.subscriptions
      && not (status_eq (status v.conn) ConnectStatus.connected))) [
        | inl e ↦ rw e (on_client_state_changed-IsTidy c after tidy)
        | inr e ↦ rw e tidy
      ]
