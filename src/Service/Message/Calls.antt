-- ===== src/Service/Message/Calls.antt =====
-- Which listeners a message calls, and how often, after listeners were added and removed.
use editor_sh.Prelude.{
  ℕ, suc, ◌-◌, none, some, List, [], ◌∷◌, ◌++◌, map, foldl, ◌≡◌, refl, ap, subst, sym, ◌∙◌, ◌==◌,
  if◌then◌else◌, arith, Option-cases, inl, inr,
}
use editor_sh.Service.Message.Registry.{
  MessageListeners, no_listeners, add_message_listener, remove_message_listener, remove_found,
  find_adaptor, splice_first, without, IsAscending, adaptor, IsAscending-append,
  IsAscending-splice_first, without-find_adaptor,
}

pub data Registration : Type 0 where
  add remove : ℕ → Registration

abbrev pub register : MessageListeners → Registration → MessageListeners
register s (add l) = add_message_listener l s
register s (remove l) = remove_message_listener l s

-- How often a listener stands in the pairs
abbrev pub count : ℕ → List (ℕ × ℕ) → ℕ
count l [] = 0
count l ((k, a) ∷ rest) = if k == l then suc (count l rest) else count l rest

abbrev pub left_after : ℕ → ℕ → Registration → ℕ
left_after l n (add k) = if k == l then suc n else n
left_after l n (remove k) = if k == l then n - 1 else n

-- How often a listener that was added `n` times is left: each removal takes one away, if any.
abbrev pub left_of : ℕ → ℕ → List Registration → ℕ
left_of l n [] = n
left_of l n (r ∷ rest) = left_of l (left_after l n r) rest

pub record IsInStep (s : MessageListeners) : Type 0 where
  pub adaptors : s.socket_listeners ≡ map adaptor s.message_listeners
  pub ascending : IsAscending 0 s.made s.message_listeners

map-adaptor_append :
    (ps : List (ℕ × ℕ)) (l a : ℕ) → map adaptor (ps ++ ((l, a) ∷ [])) ≡ map adaptor ps ++ (a ∷ [])
map-adaptor_append [] l a = refl
map-adaptor_append ((k, b) ∷ ps) l a = ap (λ xs. b ∷ xs) (map-adaptor_append ps l a)

count-append :
    (l k a : ℕ) (ps : List (ℕ × ℕ))
    → count l (ps ++ ((k, a) ∷ [])) ≡ (if k == l then suc (count l ps) else count l ps)
count-append l k a [] = refl
count-append l k a ((j, b) ∷ ps) = ground (arith, count-append l k a ps)

count-splice_first :
    (l k a : ℕ) (ps : List (ℕ × ℕ))
    → find_adaptor k ps ≡ some a
    → count l (splice_first k ps) ≡ (if k == l then count l ps - 1 else count l ps)
unfolding splice_first find_adaptor
count-splice_first l k a [] e = cc
count-splice_first l k a ((j, b) ∷ ps) e = ground (arith, count-splice_first l k a ps)

count-missing : (k : ℕ) (ps : List (ℕ × ℕ)) → find_adaptor k ps ≡ none → count k ps ≡ 0
unfolding find_adaptor
count-missing k [] e = refl
count-missing k ((j, b) ∷ ps) e = ground (arith, count-missing k ps)

pub register-IsInStep :
    (s : MessageListeners) (r : Registration) → IsInStep s → IsInStep (register s r)
unfolding add_message_listener remove_message_listener
register-IsInStep s (add l) h = record {
  adaptors =
      ap (λ xs. xs ++ (s.made ∷ [])) h.adaptors
      ∙ sym (map-adaptor_append s.message_listeners l s.made);
  ascending = IsAscending-append 0 s.made l s.message_listeners h.ascending;
}
register-IsInStep s (remove l) h = elim (Option-cases (find_adaptor l s.message_listeners)) [
  | inl e ↦ subst IsInStep (sym (ap (remove_found l s) e)) h
  | inr (a, e) ↦ subst IsInStep (sym (ap (remove_found l s) e)) (record {
    adaptors =
        ap (without a) h.adaptors
        ∙ without-find_adaptor 0 s.made l a s.message_listeners h.ascending e;
    ascending = IsAscending-splice_first 0 s.made l s.message_listeners h.ascending;
  })
]

pub count-register :
    (l : ℕ) (s : MessageListeners) (r : Registration)
    → count l (register s r).message_listeners ≡ left_after l (count l s.message_listeners) r
unfolding add_message_listener remove_message_listener
count-register l s (add k) = count-append l k s.made s.message_listeners
count-register l s (remove k) = elim (Option-cases (find_adaptor k s.message_listeners)) [
  | inl e ↦
      ap (λ r. count l (remove_found k s r).message_listeners) e
      ∙ ground (arith, count-missing k s.message_listeners)
  | inr (a, e) ↦
      ap (λ r. count l (remove_found k s r).message_listeners) e
      ∙ count-splice_first l k a s.message_listeners e
]

calls_from :
    (rs : List Registration) (s : MessageListeners) (l : ℕ)
    → IsInStep s
    → let after = foldl register s rs in
      IsInStep after
      × (count l after.message_listeners ≡ left_of l (count l s.message_listeners) rs)
calls_from [] s l h = (h, refl)
calls_from (r ∷ rs) s l h =
    let (step, sum) = calls_from rs (register s r) l (register-IsInStep s r h) in
    (step, sum ∙ ap (λ n. left_of l n rs) (count-register l s r))

-- After any additions and removals the socket calls for a message exactly the adaptors of the
-- listeners that are registered, in the order of their addition, and each listener stands there as
-- often as it was added and not removed since.
pub foldl-register :
    (rs : List Registration) (l : ℕ)
    → let s = foldl register no_listeners rs in
      (s.socket_listeners ≡ map adaptor s.message_listeners)
      × (count l s.message_listeners ≡ left_of l 0 rs)
foldl-register rs l =
    let (step, sum) =
      calls_from rs no_listeners l (record { adaptors = refl; ascending = omega arith }) in
    (step.adaptors, sum)
