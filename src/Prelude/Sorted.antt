-- ===== src/Prelude/Sorted.antt =====
-- Sorting by a number (`list.sort((a, b) => key(a) - key(b))`), which keeps the members.
use editor_sh.Prelude.Tests.{leb, if◌then◌else◌, leb_le, leb_gt, Bool-cases}
use Prim.Native.Nat.{ℕ, ◌≤◌}
use mathlib.Core.Logic.{inl, inr}
use mathlib.Core.List.{List, [], ◌∷◌, Perm}
use mathlib.Core.List.Perm
use native.Mathlib.Omega.{arith}

module _ {ℓ} {A : Type ℓ} (key : A → ℕ) where
  -- A member goes before those with a larger key, and behind those with the same.
  unfoldable pub insert_by : A → List A → List A
  insert_by x [] = x ∷ []
  insert_by x (y ∷ ys) = if leb (key x) (key y) then x ∷ y ∷ ys else y ∷ insert_by x ys

  unfoldable pub sort_by : List A → List A
  unfolding insert_by
  sort_by [] = []
  sort_by (x ∷ xs) = insert_by x (sort_by xs)

  -- The head's key is at most that of every later member.
  abbrev pub IsLower : ℕ → List A → Type 0
  IsLower n [] = Unit
  IsLower n (x ∷ xs) = (n ≤ key x) × IsLower n xs

  abbrev pub IsSorted : List A → Type 0
  IsSorted [] = Unit
  IsSorted (x ∷ xs) = IsLower (key x) xs × IsSorted xs

  IsLower-mono : (m n : ℕ) (xs : List A) → m ≤ n → IsLower n xs → IsLower m xs
  IsLower-mono m n [] h l = tt
  IsLower-mono m n (x ∷ xs) h l = (omega arith, IsLower-mono m n xs h l.1)

  IsLower-insert_by :
      (n : ℕ) (x : A) (xs : List A) → n ≤ key x → IsLower n xs → IsLower n (insert_by x xs)
  unfolding insert_by
  IsLower-insert_by n x [] h l = (h, tt)
  IsLower-insert_by n x (y ∷ ys) h l = ground (arith, IsLower-insert_by n x ys h l.1)

  insert_by-IsSorted : (x : A) (xs : List A) → IsSorted xs → IsSorted (insert_by x xs)
  unfolding insert_by
  insert_by-IsSorted x [] s = (tt, tt)
  insert_by-IsSorted x (y ∷ ys) s = elim (Bool-cases (leb (key x) (key y))) [
    | inl le ↦ rw le ((leb_le _ _ le, IsLower-mono (key x) (key y) ys (leb_le _ _ le) s.0), s)
    | inr gt ↦ rw gt (
      IsLower-insert_by (key y) x ys (omega (arith, leb_gt (key x) (key y) gt)) s.0,
      insert_by-IsSorted x ys s.1,
    )
  ]

  pub sort_by-IsSorted : (xs : List A) → IsSorted (sort_by xs)
  unfolding sort_by
  sort_by-IsSorted [] = tt
  sort_by-IsSorted (x ∷ xs) = insert_by-IsSorted x (sort_by xs) (sort_by-IsSorted xs)

  insert_by-perm : (x : A) (xs : List A) → Perm (insert_by x xs) (x ∷ xs)
  unfolding insert_by
  insert_by-perm x [] = Perm.refl (x ∷ [])
  insert_by-perm x (y ∷ ys) = elim (Bool-cases (leb (key x) (key y))) [
    | inl le ↦ rw le (Perm.refl (x ∷ y ∷ ys))
    | inr gt ↦ rw gt (Perm.trans (Perm.cons y (insert_by-perm x ys)) (Perm.swap x y ys))
  ]

  pub sort_by-perm : (xs : List A) → Perm (sort_by xs) xs
  unfolding sort_by
  sort_by-perm [] = Perm.refl []
  sort_by-perm (x ∷ xs) = Perm.trans (insert_by-perm x (sort_by xs)) (Perm.cons x (sort_by-perm xs))
