-- ===== src/Store/Dashboard/Questions/Keyed.antt =====
-- Every question stands under its own id, and what each action does to what is found under an id.
use editor_sh.Prelude.{
  ℕ, Bool, ◌≡◌, refl, ◌↔◌, Option, none, some, or_else, List, [], ◌∷◌, foldl, arith, ◌==◌,
  if◌then◌else◌, Option-cases, inl, inr,
}
use editor_sh.Prelude.Dict.{
  Dict, lookup, insert, erase, IsNodup, lookup-insert, insert-IsNodup, lookup-erase, erase-IsNodup,
}
use editor_sh.Store.Dashboard.Questions.{
  Question, QuestionsAction, query_all_success, update_favorite_success, save_success,
  delete_success, QuestionsState, set_question, questions_map, questions_state_reducer,
}

-- Each key is the id of its question.
abbrev pub IsKeyed : Dict Question → Type 0
IsKeyed [] = Unit
IsKeyed ((k, q) ∷ d) = (q.id ≡ k) × IsKeyed d

pub record IsValid (state : QuestionsState) : Type 0 where
  pub keyed : IsKeyed state.questions
  pub nodup : IsNodup state.questions

insert-IsKeyed : (q : Question) (d : Dict Question) → IsKeyed d → IsKeyed (insert q.id q d)
unfolding insert
insert-IsKeyed q [] h = (refl, tt)
insert-IsKeyed q ((k, r) ∷ d) h = ground (arith, insert-IsKeyed q d h.1)

erase-IsKeyed : (k : ℕ) (d : Dict Question) → IsKeyed d → IsKeyed (erase k d)
unfolding erase
erase-IsKeyed k [] h = tt
erase-IsKeyed k ((j, r) ∷ d) h = ground (arith, erase-IsKeyed k d h.1)

pub lookup-IsKeyed :
    (k : ℕ) (d : Dict Question) (q : Question) → IsKeyed d → lookup k d ≡ some q → q.id ≡ k
unfolding lookup
lookup-IsKeyed k [] q h e = cc
lookup-IsKeyed k ((j, r) ∷ d) q h e = ground (arith, lookup-IsKeyed k d q h.1)

foldl-set_question :
    (qs : List Question) (d : Dict Question)
    → IsKeyed d
    → IsNodup d
    → IsKeyed (foldl set_question d qs) × IsNodup (foldl set_question d qs)
foldl-set_question [] d k n = (k, n)
foldl-set_question (q ∷ qs) d k n =
    foldl-set_question qs (insert q.id q d) (insert-IsKeyed q d k) (insert-IsNodup q.id q d n)

throws_without :
    (id : ℕ) (fav : Bool) (state : QuestionsState) {after : QuestionsState}
    → lookup id state.questions ≡ none
    → questions_state_reducer state (update_favorite_success id fav) ≡ some after
    → ⊥
unfolding questions_state_reducer
throws_without id fav state absent e = ground arith

-- Whatever action the reducer handles without throwing, every question still stands under its
-- own id, and under that id alone.
pub questions_state_reducer-IsValid :
    (a : QuestionsAction) (state after : QuestionsState)
    → IsValid state
    → questions_state_reducer state a ≡ some after
    → IsValid after
unfolding questions_state_reducer
questions_state_reducer-IsValid (query_all_success qs) state after v e =
    let h = foldl-set_question (or_else qs []) [] tt tt in ground arith
questions_state_reducer-IsValid (update_favorite_success id fav) state after v e =
    elim (Option-cases (lookup id state.questions)) [
      | inl absent ↦ absurd (throws_without id fav state absent e)
      | inr (q, found) ↦
          let q' : Question = record q { favorite = fav } in
          ground (
            arith,
            lookup-IsKeyed id state.questions q v.keyed found,
            insert-IsKeyed q' state.questions,
            insert-IsNodup q.id q' state.questions,
          )
    ]
questions_state_reducer-IsValid (save_success q) state after v e =
    ground (arith, insert-IsKeyed q state.questions, insert-IsNodup q.id q state.questions)
questions_state_reducer-IsValid (delete_success id) state after v e =
    ground (arith, erase-IsKeyed id state.questions, erase-IsNodup id state.questions)
questions_state_reducer-IsValid _ state after v e = ground arith

-- The last of the questions with the id `k`.
abbrev pub latest : ℕ → List Question → Option Question
latest k [] = none
latest k (q ∷ qs) = elim (latest k qs) [
  | some r ↦ some r
  | none ↦ if k == q.id then some q else none
]

abbrev mark : Bool → Option Question → Option Question
mark fav none = none
mark fav (some q) = some (record q { favorite = fav })

-- What is found under `k` after an action, by what was found before it.
abbrev pub found_after : QuestionsAction → (ℕ → Option Question) → ℕ → Option Question
found_after (query_all_success qs) found k = latest k (or_else qs [])
found_after (update_favorite_success id fav) found k =
    if k == id then mark fav (found id) else found k
found_after (save_success q) found k = if k == q.id then some q else found k
found_after (delete_success id) found k = if k == id then none else found k
found_after _ found k = found k

lookup-foldl :
    (k : ℕ) (qs : List Question) (d : Dict Question)
    → lookup k (foldl set_question d qs)
      ≡ elim (latest k qs) [ some q ↦ some q | none ↦ lookup k d ]
lookup-foldl k [] d = refl
lookup-foldl k (q ∷ qs) d =
    ground (arith, lookup-foldl k qs (insert q.id q d), lookup-insert q.id k q d)

lookup-questions_map : (k : ℕ) (qs : List Question) → lookup k (questions_map qs) ≡ latest k qs
unfolding questions_map lookup
lookup-questions_map k qs = ground (arith, lookup-foldl k qs [])

-- After an action that the reducer handles without throwing, each id has what `found_after` says:
-- the last question of a whole list, the changed question, or what was there, and no other.
pub lookup-questions_state_reducer :
    (a : QuestionsAction) (state after : QuestionsState) (k : ℕ)
    → IsValid state
    → questions_state_reducer state a ≡ some after
    → lookup k after.questions ≡ found_after a (λ j. lookup j state.questions) k
unfolding questions_state_reducer
lookup-questions_state_reducer (query_all_success qs) state after k v e =
    ground (arith, lookup-questions_map k (or_else qs []))
lookup-questions_state_reducer (update_favorite_success id fav) state after k v e =
    elim (Option-cases (lookup id state.questions)) [
      | inl absent ↦ absurd (throws_without id fav state absent e)
      | inr (q, found) ↦
          let q' : Question = record q { favorite = fav } in
          ground (
            arith,
            lookup-IsKeyed id state.questions q v.keyed found,
            lookup-insert q.id k q' state.questions,
          )
    ]
lookup-questions_state_reducer (save_success q) state after k v e =
    ground (arith, lookup-insert q.id k q state.questions)
lookup-questions_state_reducer (delete_success id) state after k v e =
    ground (arith, lookup-erase id k state.questions v.nodup)
lookup-questions_state_reducer _ state after k v e = ground arith

-- The reducer throws exactly when the favorite mark is to change of a question that is not there.
pub questions_state_reducer_throws :
    (a : QuestionsAction) (state : QuestionsState)
    → (questions_state_reducer state a ≡ none) ↔ (
        (id : ℕ) × (fav : Bool) × (a ≡ update_favorite_success id fav)
        × (lookup id state.questions ≡ none))
unfolding questions_state_reducer
questions_state_reducer_throws (update_favorite_success id fav) state =
    (λ e. (id, fav, refl, ground arith), λ (i, f, e, absent). ground arith)
questions_state_reducer_throws (save_success q) state = (λ e. cc, λ (i, f, e, absent). cc)
questions_state_reducer_throws _ state = (λ e. cc, λ (i, f, e, absent). cc)
