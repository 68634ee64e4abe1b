-- ===== src/Pages/Edit/Visit/Losing.antt =====
-- What the end of a socket takes from a client: listeners of terminals, and nothing else.
use editor_sh.Prelude.{
  ℕ, ◌≤◌, some, List, [], ◌∷◌, ◌==◌, if◌then◌else◌, foldl, ◌≡◌, ◌≢◌, refl, ◌∙◌, arith, inl, inr,
  Bool-cases, Option-cases, All,
}
use editor_sh.Service.Message.Registry.{MessageListeners, remove_message_listener}
use editor_sh.Service.Message.Calls.{remove, count, count-register}
use editor_sh.Store.Codepad.Connection.{Input}
use editor_sh.Pages.Edit.Channels.{Attachment, get_message, terminado_detach, tell}
use editor_sh.Pages.Edit.Visit.{Visit, told, hearing}

-- `ls` has no listener more often than `before`, and each that no terminal was given as often.
pub record IsLess (given : List Attachment) (ls before : MessageListeners) : Type 0 where
  pub fewer : (l : ℕ) → count l ls.message_listeners ≤ count l before.message_listeners
  pub kept :
      (l : ℕ)
      → All (λ a. a.listener ≢ l) given
      → count l ls.message_listeners ≡ count l before.message_listeners

pub IsLess-refl : (given : List Attachment) (ls : MessageListeners) → IsLess given ls ls
IsLess-refl given ls = record { fewer = λ l. omega arith; kept = λ l ne. refl }

pub IsLess-trans :
    (given : List Attachment) (xs ys zs : MessageListeners)
    → IsLess given xs ys
    → IsLess given ys zs
    → IsLess given xs zs
IsLess-trans given xs ys zs h k = record {
  fewer = λ l. omega (arith, h.fewer l, k.fewer l);
  kept = λ l ne. h.kept l ne ∙ k.kept l ne;
}

get_message-given :
    (t l : ℕ) (given : List Attachment)
    → All (λ a. a.listener ≢ l) given
    → get_message t given ≢ some l
unfolding get_message
get_message-given t l [] ne e = cc
get_message-given t l (a ∷ later) ne e = ground (arith, get_message-given t l later ne.1, ne.0, e)

remove-IsLess :
    (given : List Attachment) (t k : ℕ) (ls : MessageListeners)
    → get_message t given ≡ some k
    → IsLess given (remove_message_listener k ls) ls
remove-IsLess given t k ls e = record {
  fewer = λ l. ground (arith, count-register l ls (remove k));
  kept = λ l ne. elim (Bool-cases (k == l)) [
    | inl same ↦ absurd (get_message-given t l given ne (ground (arith, e, same)))
    | inr other ↦ ground (arith, count-register l ls (remove k), other)
  ];
}

terminado_detach-IsLess :
    (given : List Attachment) (ms : ℕ → MessageListeners) (a : Attachment) (c : ℕ)
    → IsLess given (terminado_detach given ms a c) (ms c)
unfolding terminado_detach
terminado_detach-IsLess given ms a c = elim (Option-cases (get_message a.terminal given)) [
  | inl e ↦ rw (e, terminado_detach) (IsLess-refl given (ms c))
  | inr (l, e) ↦ elim (Bool-cases (c == a.client)) [
    | inl same ↦ rw (e, terminado_detach, same) (remove-IsLess given a.terminal l (ms c) e)
    | inr other ↦ rw (e, terminado_detach, other) (IsLess-refl given (ms c))
  ]
]

tell-IsLess :
    (given rest : List Attachment) (ms : ℕ → MessageListeners) (d c : ℕ)
    → IsLess given
        (foldl (λ ms a. if a.client == d then terminado_detach given ms a else ms) ms rest c)
        (ms c)
tell-IsLess given [] ms d c = IsLess-refl given (ms c)
tell-IsLess given (a ∷ rest) ms d c = elim (Bool-cases (a.client == d)) [
  | inl e ↦ rw e (
      IsLess-trans given _ (terminado_detach given ms a c) (ms c)
        (tell-IsLess given rest (terminado_detach given ms a) d c)
        (terminado_detach-IsLess given ms a c))
  | inr e ↦ rw e (tell-IsLess given rest ms d c)
]

tell_all-IsLess :
    (given : List Attachment) (ds : List ℕ) (ms : ℕ → MessageListeners) (c : ℕ)
    → IsLess given (foldl (tell given) ms ds c) (ms c)
tell_all-IsLess given [] ms c = IsLess-refl given (ms c)
tell_all-IsLess given (d ∷ ds) ms c =
    IsLess-trans given _ (tell given ms d c) (ms c) (tell_all-IsLess given ds (tell given ms d) c)
      (tell-IsLess given given ms d c)

pub told-IsLess :
    (input : Input) (v : Visit) (c : ℕ) → IsLess v.attachments (told input v c) (v.messages c)
told-IsLess input v c = tell_all-IsLess v.attachments (hearing v.conn input) v.messages c
