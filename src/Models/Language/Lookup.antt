-- ===== src/Models/Language/Lookup.antt =====
-- Looking up a language by its id.
use editor_sh.Prelude.{
  String, ◌≡◌, refl, ap, sym, ◌∙◌, some, List, [], ◌∷◌, find?, str_eq, All, eq_iff, inl, inr,
  Bool-cases,
}
use mathlib.Core.Option.{some-injective}
use editor_sh.Prelude.Members.{Elem, Elem-All}
use editor_sh.Models.Language.{Language, language_list, get_language_by_id}

find_id :
    (id : String) (ls : List Language) (l : Language)
    → find? (λ it. str_eq it.id id) ls ≡ some l
    → l.id ≡ id
find_id id [] l h = cc
find_id id (x ∷ xs) l h = elim (Bool-cases (str_eq x.id id)) [
  | inl same ↦
      ap (λ (k : Language). k.id) (sym (some-injective x l (rw same at h)))
      ∙ (eq_iff x.id id).0 same
  | inr other ↦ find_id id xs l (rw other at h)
]

-- What is found for an id is a language with that id.
pub id-get_language_by_id :
    (id : String) (l : Language) → get_language_by_id id ≡ some l → l.id ≡ id
unfolding get_language_by_id
id-get_language_by_id id l h = find_id id language_list l h

-- Every language of the list is found again by its id, so that no two of them share one.
pub get_language_by_id-id : All (λ (l : Language). get_language_by_id l.id ≡ some l) language_list
unfolding get_language_by_id
get_language_by_id-id = assumption (refl, tt)

-- A language of the list is found again by its id.
pub get_language_by_id-listed :
    (l : Language) → Elem l language_list → get_language_by_id l.id ≡ some l
get_language_by_id-listed l listed =
    Elem-All (λ k. get_language_by_id k.id ≡ some k) l language_list get_language_by_id-id listed
