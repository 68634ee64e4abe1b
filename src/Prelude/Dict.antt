-- ===== src/Prelude/Dict.antt =====
-- A map with numbers for keys (`immutable.Map<number, V>`), as an association list.
use editor_sh.Prelude.Tests.{◌==◌, if◌then◌else◌}
use Prim.Native.Nat.{ℕ}
use mathlib.Core.Path.{◌≡◌, refl}
use mathlib.Core.Option.{Option, none, some}
use mathlib.Core.List.{List, [], ◌∷◌}
use native.Mathlib.Omega.{arith}

abbrev pub Dict {ℓ} : Type ℓ → Type ℓ
Dict V = List (ℕ × V)

module _ {ℓ} {V : Type ℓ} where
  -- `m.get(k)`
  unfoldable pub lookup : ℕ → Dict V → Option V
  lookup k [] = none
  lookup k ((j, v) ∷ d) = if k == j then some v else lookup k d

  -- `m.set(k, v)`
  unfoldable pub insert : ℕ → V → Dict V → Dict V
  insert k v [] = (k, v) ∷ []
  insert k v ((j, w) ∷ d) = if k == j then (k, v) ∷ d else (j, w) ∷ insert k v d

  -- `m.delete(k)`
  unfoldable pub erase : ℕ → Dict V → Dict V
  erase k [] = []
  erase k ((j, w) ∷ d) = if k == j then d else (j, w) ∷ erase k d

  -- `m.toList()`
  unfoldable pub values : Dict V → List V
  values [] = []
  values ((j, w) ∷ d) = w ∷ values d

  -- No key is listed twice.
  abbrev pub IsNodup : Dict V → Type ℓ
  IsNodup [] = Unit
  IsNodup ((j, w) ∷ d) = (lookup j d ≡ none) × IsNodup d

  pub lookup-insert :
      (k j : ℕ) (v : V) (d : Dict V)
      → lookup j (insert k v d) ≡ (if j == k then some v else lookup j d)
  unfolding lookup insert
  lookup-insert k j v [] = refl
  lookup-insert k j v ((i, w) ∷ d) = ground (arith, lookup-insert k j v d)

  pub insert-IsNodup : (k : ℕ) (v : V) (d : Dict V) → IsNodup d → IsNodup (insert k v d)
  unfolding insert lookup
  insert-IsNodup k v [] h = (refl, tt)
  insert-IsNodup k v ((i, w) ∷ d) h =
      ground (arith, insert-IsNodup k v d h.1, lookup-insert k i v d)

  pub lookup-erase :
      (k j : ℕ) (d : Dict V)
      → IsNodup d
      → lookup j (erase k d) ≡ (if j == k then none else lookup j d)
  unfolding lookup erase
  lookup-erase k j [] h = ground arith
  lookup-erase k j ((i, w) ∷ d) h = ground (arith, lookup-erase k j d h.1)

  pub erase-IsNodup : (k : ℕ) (d : Dict V) → IsNodup d → IsNodup (erase k d)
  unfolding erase lookup
  erase-IsNodup k [] h = tt
  erase-IsNodup k ((i, w) ∷ d) h = ground (arith, erase-IsNodup k d h.1, lookup-erase k i d h.1)
