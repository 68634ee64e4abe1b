-- ===== src/Store/Dashboard/Tests.antt =====
-- Inputs for the properties of the pads, the databases, the settings and the saving of questions.
use editor_sh.Prelude.{true, false, none, some, List, [], ◌∷◌, ◌≡◌, refl, ◌⊎◌, inl, ◌↔◌, foldl, ◌<◌}
use editor_sh.Prelude.Dict.{lookup, insert}
use editor_sh.Models.Language.{Language, get_language_by_id}
use editor_sh.Service.Api.{QuestionBody, put, post, question_save}
use editor_sh.Service.Graphql.{Answer, reply}
use editor_sh.Store.Dashboard.Questions.{
  Question, QuestionsState, initial_questions_state, save, questions_state_reducer,
  add_or_update_question,
}
use editor_sh.Store.Dashboard.Questions.Effects.{
  Dates, save_body, question_of_item, save_answer, questions_effects,
}
use editor_sh.Store.Dashboard.Questions.Saving.{questions_effects-save, question_of_item-save_body}
use editor_sh.Store.Dashboard.Pads.{PadsState, PadsPage, initial_pads_state}
use editor_sh.Store.Dashboard.Databases.{
  Database, DatabasesAction, save_success, delete_success, databases_state_reducer,
  initial_databases_state,
}
use editor_sh.Store.Dashboard.Databases.Laws.{found_all, lookup-databases_state_reducer}
use editor_sh.Store.Dashboard.Settings.{
  Setting, SettingsAction, query_success, refresh_api_key_success,
}
use editor_sh.Store.Action.{Command}

abbrev dates : Dates
dates = record { to_utc_string = λ t. "Thu, 01 Jan 1970 00:00:05 GMT"; new_date = λ s. 5000 }

abbrev question : Question
question = record {
  id = 3;
  language = none;
  author = "me";
  title = "sum";
  notes = "";
  content = "1 + 1";
  create_time = some 5000;
  favorite = false;
}

abbrev item : QuestionBody
item = record {
  id = 3;
  language = "";
  author = "me";
  title = "sum";
  notes = "";
  content = "1 + 1";
  create_time = "Thu, 01 Jan 1970 00:00:05 GMT";
  favorite = false;
}

abbrev saved : QuestionsState
saved = record initial_questions_state { questions = (3, question) ∷ [] }

questions_effects-save_example :
    ((question.create_time ≡ none) × (questions_effects dates (save question) ≡ Command.crash ∷ []))
    ⊎ ((body : QuestionBody) × (save_body dates question ≡ some body)
        × (questions_effects dates (save question) ≡ Command.rest (question_save body) ∷ [])
        × (((question_save body).method ≡ put) ↔ (0 < question.id))
        × (((question_save body).method ≡ post) ↔ (question.id ≡ 0)))
questions_effects-save_example = questions_effects-save dates question

sent_item : save_body dates question ≡ some item
unfolding save_body
sent_item = refl

saved_item : questions_state_reducer initial_questions_state (save_answer dates item) ≡ some saved
unfolding questions_state_reducer save_answer question_of_item add_or_update_question insert
    get_language_by_id
saved_item = refl

question_of_item-save_body_example :
    (question_of_item dates item ≡ question) × (lookup question.id saved.questions ≡ some question)
question_of_item-save_body_example =
    question_of_item-save_body dates question item 5000 initial_questions_state saved refl refl
      (inl refl) sent_item saved_item

abbrev listing : PadsState
listing = record initial_pads_state { page_index = 3; page_size = 20 }

abbrev second_page : PadsPage
second_page = record { pads = none; page_index = some 1; page_size = some 20; total = some 21 }

abbrev answered : Answer PadsPage
answered = reply (record { value = some second_page; errors = none })

abbrev database : Database
database = record {
  id = 4;
  title = "db";
  status = none;
  engine = none;
  description = "";
  script = "";
  summary = "";
}

abbrev changes : List DatabasesAction
changes = save_success database ∷ delete_success 9 ∷ []

lookup-databases_state_reducer_example :
    lookup 4 (foldl databases_state_reducer initial_databases_state changes).databases
    ≡ found_all changes (λ j. none) 4
lookup-databases_state_reducer_example = lookup-databases_state_reducer changes 4

abbrev c_language : Language
c_language = record { id = "c"; name = "C"; editor_language = "c"; langcode = "c" }

abbrev setting : Setting
setting = record {
  id = 1;
  api_key = "k";
  language = some c_language;
  pads_private = false;
  email_subscription = true;
  code_execution = true;
  email = "a@b.c";
  name = "A";
}

abbrev refreshes : List SettingsAction
refreshes = refresh_api_key_success "k2" ∷ query_success (some setting) ∷ []
