-- ===== src/Prelude/Members.antt =====
-- Membership in a list at a known place, under the filters and sorts of the selectors.
use editor_sh.Prelude.Tests.{leb, Bool-cases}
use editor_sh.Prelude.Lists.{keep, All}
use editor_sh.Prelude.Sorted.{insert_by, sort_by}
use Prim.Native.Nat.{ℕ}
use mathlib.Core.Path.{◌≡◌, sym, subst}
use mathlib.Core.Logic.{◌⊎◌, inl, inr}
use mathlib.Core.Bool.{Bool, true}
use mathlib.Core.List.{List, [], ◌∷◌}
use native.Mathlib.Omega.{arith}

module _ {A : Type 0} where
  abbrev pub Elem : A → List A → Type 0
  Elem x [] = ⊥
  Elem x (y ∷ ys) = (x ≡ y) ⊎ Elem x ys

  pub Elem-All : (P : A → Type 0) (x : A) (xs : List A) → All P xs → Elem x xs → P x
  Elem-All P x [] h e = absurd e
  Elem-All P x (y ∷ ys) h (inl same) = subst P (sym same) h.0
  Elem-All P x (y ∷ ys) h (inr later) = Elem-All P x ys h.1 later

  Elem-insert_by :
      (key : A → ℕ) (x y : A) (ys : List A)
      → (Elem x (insert_by key y ys) → Elem x (y ∷ ys))
        × (Elem x (y ∷ ys) → Elem x (insert_by key y ys))
  unfolding insert_by
  Elem-insert_by key x y [] = (λ e. e, λ e. e)
  Elem-insert_by key x y (z ∷ zs) = elim (Bool-cases (leb (key y) (key z))) [
    | inl le ↦ rw le (λ e. e, λ e. e)
    | inr gt ↦ rw gt (
      λ e. ground (arith, (Elem-insert_by key x y zs).0),
      λ e. ground (arith, (Elem-insert_by key x y zs).1),
    )
  ]

  -- Sorting keeps the members.
  pub Elem-sort_by :
      (key : A → ℕ) (x : A) (xs : List A)
      → (Elem x (sort_by key xs) → Elem x xs) × (Elem x xs → Elem x (sort_by key xs))
  unfolding sort_by
  Elem-sort_by key x [] = (λ e. e, λ e. e)
  Elem-sort_by key x (y ∷ ys) =
      let (into, back) = Elem-insert_by key x y (sort_by key ys) in
      let (ih, hi) = Elem-sort_by key x ys in
      (
        λ e. elim (into e) [ inl p ↦ inl p | inr q ↦ inr (ih q) ],
        λ e. back (elim e [ inl p ↦ inl p | inr q ↦ inr (hi q) ]),
      )

  -- A filter keeps the members that pass, and no others.
  pub Elem-keep :
      (p : A → Bool) (x : A) (xs : List A)
      → (Elem x (keep p xs) → Elem x xs × (p x ≡ true))
        × (Elem x xs → p x ≡ true → Elem x (keep p xs))
  Elem-keep p x [] = (λ e. absurd e, λ e. absurd e)
  Elem-keep p x (y ∷ ys) = elim (Bool-cases (p y)) [
    | inl pass ↦ rw pass (
      λ e. elim e [
        | inl q ↦ (inl q, rw q pass)
        | inr q ↦ let (r, s) = (Elem-keep p x ys).0 q in (inr r, s)
      ],
      λ e h. elim e [ inl q ↦ inl q | inr q ↦ inr ((Elem-keep p x ys).1 q h) ],
    )
    | inr stop ↦ rw stop (
      λ e. let (r, s) = (Elem-keep p x ys).0 e in (inr r, s),
      λ e h. elim e [ inl q ↦ cc | inr q ↦ (Elem-keep p x ys).1 q h ],
    )
  ]
