-- ===== src/Store/Codepad/Connection/Listeners.antt =====
-- What listens after a closure was registered or removed.
use editor_sh.Prelude.{
  true, ◌||◌, not, ◌&&◌, List, [], ◌∷◌, ◌≡◌, refl, ap, ==_iff, arith, Bool-cases, inl, inr,
}
use editor_sh.Service.Client.{Callback, callback_eq, is_listening, add_listener, remove_listener}

pub callback_eq-true : (f g : Callback) → callback_eq f g ≡ true → f ≡ g
callback_eq-true (Callback.on_open m) (Callback.on_open n) e =
    ap Callback.on_open ((==_iff m n).0 e)
callback_eq-true (Callback.on_close m) (Callback.on_close n) e =
    ap Callback.on_close ((==_iff m n).0 e)
callback_eq-true (Callback.on_error m) (Callback.on_error n) e =
    ap Callback.on_error ((==_iff m n).0 e)
callback_eq-true Callback.on_client_closed Callback.on_client_closed e = refl
callback_eq-true (Callback.on_open m) _ e = cc
callback_eq-true (Callback.on_close m) _ e = cc
callback_eq-true (Callback.on_error m) _ e = cc
callback_eq-true Callback.on_client_closed _ e = cc

pub callback_eq_refl : (f : Callback) → callback_eq f f ≡ true
callback_eq_refl (Callback.on_open m) = ground arith
callback_eq_refl (Callback.on_close m) = ground arith
callback_eq_refl (Callback.on_error m) = ground arith
callback_eq_refl Callback.on_client_closed = refl

pub is_listening-remove_listener :
    (f g : Callback) (ls : List Callback)
    → is_listening f (remove_listener g ls) ≡ (not (callback_eq f g) && is_listening f ls)
unfolding is_listening remove_listener
is_listening-remove_listener f g [] = ground arith
is_listening-remove_listener f g (h ∷ ls) = elim (Bool-cases (callback_eq g h)) [
  | inl same ↦ ground (arith, callback_eq-true g h same, is_listening-remove_listener f g ls)
  | inr other ↦ elim (Bool-cases (callback_eq f g)) [
    | inl e ↦ ground (arith, callback_eq-true f g e, is_listening-remove_listener f g ls)
    | inr e ↦ ground (arith, is_listening-remove_listener f g ls)
  ]
]

pub is_listening-add_listener :
    (f g : Callback) (ls : List Callback)
    → is_listening f (add_listener g ls) ≡ (callback_eq f g || is_listening f ls)
unfolding is_listening add_listener
is_listening-add_listener f g [] = ground arith
is_listening-add_listener f g (h ∷ ls) = elim (Bool-cases (callback_eq g h)) [
  | inl same ↦ ground (arith, callback_eq-true g h same)
  | inr other ↦ ground (arith, is_listening-add_listener f g ls)
]
