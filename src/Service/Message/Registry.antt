-- ===== src/Service/Message/Registry.antt =====
-- The message listeners of a client (`addEventListener` and `removeEventListener` for `message` in
-- shared/services/codepad/codepad.service.ts): for each listener an adaptor is made, which is what
-- the socket knows. Listeners and adaptors stand by numbers.
use editor_sh.Prelude.{
  ℕ, suc, ◌≤◌, ◌<◌, Option, none, some, List, [], ◌∷◌, ◌++◌, map, ◌≡◌, refl, ◌==◌, if◌then◌else◌,
  arith, Bool-cases, inl, inr,
}

-- `message_listeners` as pairs of a listener and its adaptor, what the socket calls for a message,
-- and how many adaptors have been made.
pub record MessageListeners : Type 0 where
  pub message_listeners : List (ℕ × ℕ)
  pub socket_listeners : List ℕ
  pub made : ℕ

abbrev pub no_listeners : MessageListeners
no_listeners = record { message_listeners = []; socket_listeners = []; made = 0 }

unfoldable pub add_message_listener : ℕ → MessageListeners → MessageListeners
add_message_listener listener s = record {
  message_listeners = s.message_listeners ++ ((listener, s.made) ∷ []);
  socket_listeners = s.socket_listeners ++ (s.made ∷ []);
  made = suc s.made;
}

-- The adaptor of the first pair of a listener, and the pairs without that one (`splice`)
unfoldable pub find_adaptor : ℕ → List (ℕ × ℕ) → Option ℕ
find_adaptor listener [] = none
find_adaptor listener ((l, a) ∷ rest) = if l == listener then some a else find_adaptor listener rest

unfoldable pub splice_first : ℕ → List (ℕ × ℕ) → List (ℕ × ℕ)
splice_first listener [] = []
splice_first listener ((l, a) ∷ rest) =
    if l == listener then rest else (l, a) ∷ splice_first listener rest

-- `socket.removeEventListener`
unfoldable pub without : ℕ → List ℕ → List ℕ
without a [] = []
without a (x ∷ xs) = if x == a then without a xs else x ∷ without a xs

abbrev pub remove_found : ℕ → MessageListeners → Option ℕ → MessageListeners
remove_found listener s none = s
remove_found listener s (some a) = record s {
  message_listeners = splice_first listener s.message_listeners;
  socket_listeners = without a s.socket_listeners;
}

unfoldable pub remove_message_listener : ℕ → MessageListeners → MessageListeners
unfolding find_adaptor splice_first without
remove_message_listener listener s =
    remove_found listener s (find_adaptor listener s.message_listeners)

-- The adaptors of the pairs go up from `low` on, and are below `made`.
abbrev pub IsAscending : ℕ → ℕ → List (ℕ × ℕ) → Type 0
IsAscending low made [] = low ≤ made
IsAscending low made ((l, a) ∷ rest) = (low ≤ a) × IsAscending (suc a) made rest

abbrev pub adaptor : ℕ × ℕ → ℕ
adaptor (l, a) = a

IsAscending-lower :
    (low high made : ℕ) (ps : List (ℕ × ℕ))
    → low ≤ high
    → IsAscending high made ps
    → IsAscending low made ps
IsAscending-lower low high made [] h p = omega arith
IsAscending-lower low high made ((l, a) ∷ rest) h p = (omega (arith, p.0), p.1)

pub IsAscending-append :
    (low made l : ℕ) (ps : List (ℕ × ℕ))
    → IsAscending low made ps
    → IsAscending low (suc made) (ps ++ ((l, made) ∷ []))
IsAscending-append low made l [] p = (p, omega arith)
IsAscending-append low made l ((k, a) ∷ rest) p = (p.0, IsAscending-append (suc a) made l rest p.1)

pub IsAscending-splice_first :
    (low made l : ℕ) (ps : List (ℕ × ℕ))
    → IsAscending low made ps
    → IsAscending low made (splice_first l ps)
unfolding splice_first
IsAscending-splice_first low made l [] p = p
IsAscending-splice_first low made l ((k, a) ∷ rest) p = elim (Bool-cases (k == l)) [
  | inl e ↦ rw e (IsAscending-lower low (suc a) made rest (omega (arith, p.0)) p.1)
  | inr e ↦ rw e (p.0, IsAscending-splice_first (suc a) made l rest p.1)
]

find_adaptor-above :
    (low made l a : ℕ) (ps : List (ℕ × ℕ))
    → IsAscending low made ps
    → find_adaptor l ps ≡ some a
    → low ≤ a
unfolding find_adaptor
find_adaptor-above low made l a [] p e = cc
find_adaptor-above low made l a ((k, b) ∷ rest) p e =
    ground (arith, find_adaptor-above (suc b) made l a rest p.1)

without-above :
    (low made a : ℕ) (ps : List (ℕ × ℕ))
    → a < low
    → IsAscending low made ps
    → without a (map adaptor ps) ≡ map adaptor ps
unfolding without
without-above low made a [] h p = refl
without-above low made a ((k, b) ∷ rest) h p =
    ground (arith, without-above (suc b) made a rest, p.0, p.1)

pub without-find_adaptor :
    (low made l a : ℕ) (ps : List (ℕ × ℕ))
    → IsAscending low made ps
    → find_adaptor l ps ≡ some a
    → without a (map adaptor ps) ≡ map adaptor (splice_first l ps)
unfolding without find_adaptor splice_first
without-find_adaptor low made l a [] p e = cc
without-find_adaptor low made l a ((k, b) ∷ rest) p e = ground (
  arith,
  without-above (suc b) made b rest,
  without-find_adaptor (suc b) made l a rest p.1,
  find_adaptor-above (suc b) made l a rest p.1,
)
