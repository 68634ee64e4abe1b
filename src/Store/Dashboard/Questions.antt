-- ===== src/Store/Dashboard/Questions.antt =====
-- The questions (store/dashboard/stores/questions): model, actions, reducer, selectors.
pub mod Effects
pub mod Keyed
pub mod Favorites
pub mod Saving
mod Tests
use editor_sh.Prelude.{ℕ, String, Bool, not, Option, none, some, or_else, List, [], keep, foldl}
use editor_sh.Prelude.Dict.{Dict, lookup, insert, erase, values}
use editor_sh.Prelude.Sorted.{sort_by}
use editor_sh.Models.Language.{Language}
use editor_sh.Store.Common.{ApiErrorStateParams}

-- `createTime` is a time in milliseconds, or `null`.
pub record Question : Type 0 where
  pub id : ℕ
  pub language : Option Language
  pub author : String
  pub title : String
  pub notes : String
  pub content : String
  pub create_time : Option ℕ
  pub favorite : Bool

pub data QuestionsAction : Type 0 where
  query_all : QuestionsAction
  query_all_success : Option (List Question) → QuestionsAction
  query_all_failure : ApiErrorStateParams → QuestionsAction
  update_favorite : Question → Bool → QuestionsAction
  update_favorite_success : ℕ → Bool → QuestionsAction
  update_favorite_failure : ApiErrorStateParams → QuestionsAction
  save : Question → QuestionsAction
  save_success : Question → QuestionsAction
  save_failure : ApiErrorStateParams → QuestionsAction
  delete : Question → QuestionsAction
  delete_success : ℕ → QuestionsAction
  delete_failure : ApiErrorStateParams → QuestionsAction
  selected : ℕ → QuestionsAction
  query_editing : ℕ → QuestionsAction
  query_editing_success : Question → QuestionsAction
  query_editing_failure : ApiErrorStateParams → QuestionsAction
  query_editing_clear : QuestionsAction

pub record QuestionsState : Type 0 where
  pub questions : Dict Question
  pub selected_question_id : ℕ
  pub editing_question : Option Question

abbrev pub initial_questions_state : QuestionsState
initial_questions_state = record {
  questions = [];
  selected_question_id = 0;
  editing_question = none;
}

unfoldable pub add_or_update_question : Question → QuestionsState → QuestionsState
add_or_update_question question state = record state {
  questions = insert question.id question state.questions;
}

-- `questionsList.forEach(item => it.set(item.id, item))` on an empty map
abbrev pub set_question : Dict Question → Question → Dict Question
set_question d item = insert item.id item d

unfoldable pub questions_map : List Question → Dict Question
questions_map = foldl set_question []

-- `question.with({ favorite })`, where `none` is the TypeError of a question that is not there
favorite_set : Option Question → Bool → Option Question
favorite_set none favorite = none
favorite_set (some question) favorite = some (record question { favorite = favorite })

abbrev update_found : Option Question → QuestionsState → Option QuestionsState
update_found none state = none
update_found (some question) state = some (add_or_update_question question state)

-- `none`: the reducer throws.
unfoldable pub questions_state_reducer : QuestionsState → QuestionsAction → Option QuestionsState
unfolding add_or_update_question questions_map favorite_set
questions_state_reducer state (query_all_success questions) =
    some (record state { questions = questions_map (or_else questions []) })
questions_state_reducer state (update_favorite_success question_id favorite) =
    update_found (favorite_set (lookup question_id state.questions) favorite) state
questions_state_reducer state (save_success question) = some (add_or_update_question question state)
questions_state_reducer state (delete_success question_id) =
    some (record state { questions = erase question_id state.questions })
questions_state_reducer state (selected id) = some (record state { selected_question_id = id })
questions_state_reducer state (query_editing_success question) =
    some (record state { editing_question = some question })
questions_state_reducer state query_editing_clear = some (record state { editing_question = none })
questions_state_reducer state _ = some state

unfoldable pub select_selected_question : QuestionsState → Option Question
select_selected_question state = lookup state.selected_question_id state.questions

abbrev pub id_of : Question → ℕ
id_of q = q.id

unfoldable pub select_favorite_questions : QuestionsState → List Question
select_favorite_questions state =
    sort_by id_of (keep (λ (it : Question). it.favorite) (values state.questions))

unfoldable pub select_normal_questions : QuestionsState → List Question
select_normal_questions state =
    sort_by id_of (keep (λ (it : Question). not it.favorite) (values state.questions))
