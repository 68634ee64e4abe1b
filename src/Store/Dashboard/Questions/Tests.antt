-- ===== src/Store/Dashboard/Questions/Tests.antt =====
-- Inputs for the properties of the questions.
use editor_sh.Prelude.{ℕ, true, false, none, some, [], ◌∷◌, ◌≡◌, refl}
use editor_sh.Prelude.Dict.{lookup, insert, IsNodup}
use editor_sh.Store.Dashboard.Questions.{
  Question, update_favorite_success, QuestionsState, questions_state_reducer,
}
use editor_sh.Store.Dashboard.Questions.Keyed.{IsValid, found_after, lookup-questions_state_reducer}
use editor_sh.Store.Dashboard.Questions.Favorites.{IsSplit, select-IsSplit}

abbrev question : ℕ → Question
question id = record {
  id = id;
  language = none;
  author = "";
  title = "";
  notes = "";
  content = "";
  create_time = none;
  favorite = false;
}

abbrev two : QuestionsState
two = record {
  questions = (5, question 5) ∷ (2, record (question 2) { favorite = true }) ∷ [];
  selected_question_id = 5;
  editing_question = none;
}

abbrev marked : QuestionsState
marked = record two {
  questions =
      (5, record (question 5) { favorite = true })
      ∷ (2, record (question 2) { favorite = true })
      ∷ [];
}

two-IsNodup : IsNodup two.questions
unfolding lookup
two-IsNodup = (refl, (refl, tt))

two-IsValid : IsValid two
two-IsValid = record { keyed = (refl, (refl, tt)); nodup = two-IsNodup }

marks : questions_state_reducer two (update_favorite_success 5 true) ≡ some marked
unfolding questions_state_reducer lookup insert
marks = refl

lookup-questions_state_reducer_example :
    lookup 2 marked.questions
    ≡ found_after (update_favorite_success 5 true) (λ j. lookup j two.questions) 2
lookup-questions_state_reducer_example =
    lookup-questions_state_reducer (update_favorite_success 5 true) two marked 2 two-IsValid marks

select-IsSplit_example : IsSplit two
select-IsSplit_example = select-IsSplit two two-IsValid
