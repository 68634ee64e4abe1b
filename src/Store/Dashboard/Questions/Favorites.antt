-- ===== src/Store/Dashboard/Questions/Favorites.antt =====
-- The two lists of questions that the selectors give: the favorites and the others.
use editor_sh.Prelude.{
  Bool, true, false, not, ◌≡◌, ◌↔◌, inl, inr, some, List, [], ◌∷◌, ◌++◌, keep, arith, Bool-cases,
  ◌==◌,
}
use editor_sh.Prelude.Dict.{Dict, lookup, values, IsNodup}
use editor_sh.Prelude.Sorted.{sort_by, sort_by-IsSorted, sort_by-perm, IsSorted}
use editor_sh.Prelude.Members.{Elem, Elem-sort_by, Elem-keep}
use mathlib.Core.List.{Perm, perm_middle}
use mathlib.Core.List.Perm
use editor_sh.Store.Dashboard.Questions.{
  Question, QuestionsState, id_of, select_favorite_questions, select_normal_questions,
}
use editor_sh.Store.Dashboard.Questions.Keyed.{IsKeyed, IsValid}

Elem-values :
    (q : Question) (d : Dict Question)
    → IsKeyed d
    → IsNodup d
    → (Elem q (values d) → lookup q.id d ≡ some q) × (lookup q.id d ≡ some q → Elem q (values d))
unfolding lookup values
Elem-values q [] k n = (λ e. absurd e, λ e. cc)
Elem-values q ((j, r) ∷ d) k n =
    let (into, back) = Elem-values q d k.1 n.1 in
    (
      λ e. elim e [ inl same ↦ ground arith | inr later ↦ ground (arith, into later) ],
      λ e. elim (Bool-cases (q.id == j)) [
        | inl here ↦ inl (ground arith)
        | inr there ↦ inr (back (rw there at e))
      ],
    )

-- A question is in the one or the other exactly if
-- it stands in the map with the mark that the list is for; both are in the order of the ids; and
-- together they are all the questions, each as often as it stands in the map.
pub record IsSplit (state : QuestionsState) : Type 0 where
  pub favorites :
      (q : Question)
      → Elem q (select_favorite_questions state)
        ↔ ((lookup q.id state.questions ≡ some q) × (q.favorite ≡ true))
  pub normals :
      (q : Question)
      → Elem q (select_normal_questions state)
        ↔ ((lookup q.id state.questions ≡ some q) × (q.favorite ≡ false))
  pub favorites_sorted : IsSorted id_of (select_favorite_questions state)
  pub normals_sorted : IsSorted id_of (select_normal_questions state)
  pub all :
      Perm
        (select_favorite_questions state ++ select_normal_questions state)
        (values state.questions)

-- A filter and a sort, with what passes the test.
Elem-select :
    (p : Question → Bool) (state : QuestionsState) (q : Question)
    → IsValid state
    → Elem q (sort_by id_of (keep p (values state.questions)))
      ↔ ((lookup q.id state.questions ≡ some q) × (p q ≡ true))
Elem-select p state q v =
    let (sorted, unsorted) = Elem-sort_by id_of q (keep p (values state.questions)) in
    let (kept, passed) = Elem-keep p q (values state.questions) in
    let (found, listed) = Elem-values q state.questions v.keyed v.nodup in
    (λ e. let (r, s) = kept (sorted e) in (found r, s), λ (e, h). unsorted (passed (listed e) h))

perm-keep :
    (p : Question → Bool) (qs : List Question) → Perm (keep p qs ++ keep (λ q. not (p q)) qs) qs
perm-keep p [] = Perm.refl []
perm-keep p (q ∷ qs) = elim (Bool-cases (p q)) [
  | inl yes' ↦ rw yes' (Perm.cons q (perm-keep p qs))
  | inr no' ↦ rw no' (
      Perm.trans (perm_middle (keep p qs) (keep (λ q. not (p q)) qs))
        (Perm.cons q (perm-keep p qs)))
]

not-eq_true : (b : Bool) → (not b ≡ true) ↔ (b ≡ false)
not-eq_true b = ground arith

-- In a state with each question under its own id the two selectors split the questions.
pub select-IsSplit : (state : QuestionsState) → IsValid state → IsSplit state
unfolding select_favorite_questions select_normal_questions
select-IsSplit state v = record {
  favorites = λ q. Elem-select (λ r. r.favorite) state q v;
  normals = λ q.
      let (into, back) = Elem-select (λ r. not r.favorite) state q v in
      (
        λ e. let (r, s) = into e in (r, (not-eq_true q.favorite).0 s),
        λ (r, s). back (r, (not-eq_true q.favorite).1 s),
      );
  favorites_sorted = sort_by-IsSorted id_of _;
  normals_sorted = sort_by-IsSorted id_of _;
  all =
      Perm.trans (Perm.append (sort_by-perm id_of _) (sort_by-perm id_of _))
        (perm-keep (λ r. r.favorite) _);
}
