-- ===== src/Store/Dashboard/Questions/Effects.antt =====
-- The effects of the questions (store/dashboard/stores/questions/questions.effect.ts).
use editor_sh.Prelude.{ℕ, String, Option, none, some, List, [], ◌∷◌, map, ltb, if◌then◌else◌}
use editor_sh.Models.Language.{Language, get_language_by_id}
use editor_sh.Service.Api.{
  UrlPath, word, number, QuestionBody, questions_query_all, question_update_favorite, question_save,
  question_delete, question_query_one,
}
use editor_sh.Store.Common.{CommonAction}
use editor_sh.Store.Dashboard.Questions.{
  Question, QuestionsAction, query_all, query_all_success, update_favorite, save, save_success,
  delete, delete_success, selected, query_editing, query_editing_success,
}
use editor_sh.Store.Action.{WebsiteAction, Command}

-- The two conversions of the language's `Date`: `toUTCString`, and what `new Date(text)` gives.
pub record Dates : Type 0 where
  pub to_utc_string : ℕ → String
  pub new_date : String → ℕ

abbrev pub snack_bar : String → Command
snack_bar text = Command.dispatch (
    WebsiteAction.common
      (CommonAction.snack_bar_message (record { message = some text; action = none })))

-- `language && language.id || ''`
abbrev pub language_id : Option Language → String
language_id none = ""
language_id (some language) = language.id

-- The body of a save, where `none` is the TypeError of a question with no time of creation.
unfoldable pub save_body : Dates → Question → Option QuestionBody
save_body dates q = elim q.create_time [
  | none ↦ none
  | some t ↦ some (record {
    id = q.id;
    language = language_id q.language;
    author = q.author;
    title = q.title;
    notes = q.notes;
    content = q.content;
    create_time = dates.to_utc_string t;
    favorite = q.favorite;
  })
]

-- `new Question({ ...item, language, createTime })`, for an item of a response
unfoldable pub question_of_item : Dates → QuestionBody → Question
question_of_item dates item = record {
  id = item.id;
  language = get_language_by_id item.language;
  author = item.author;
  title = item.title;
  notes = item.notes;
  content = item.content;
  create_time = some (dates.new_date item.create_time);
  favorite = item.favorite;
}

abbrev save_command : Option QuestionBody → Command
save_command none = Command.crash
save_command (some body) = Command.rest (question_save body)

abbrev pub questions_page : UrlPath
questions_page = word "/dashboard/questions" ∷ []

unfoldable pub questions_effects : Dates → QuestionsAction → List Command
unfolding save_body
questions_effects dates query_all = Command.rest (questions_query_all 0 9999 "") ∷ []
questions_effects dates (selected id) =
    Command.location_go
      (if ltb 0 id then word "/dashboard/questions" ∷ number id ∷ [] else questions_page)
    ∷ []
questions_effects dates (update_favorite question favorite) =
    Command.rest (question_update_favorite question.id favorite) ∷ []
questions_effects dates (save question) = save_command (save_body dates question) ∷ []
questions_effects dates (save_success question) =
    Command.navigate (word "/dashboard/questions" ∷ number question.id ∷ [])
    ∷ snack_bar "Question Saved"
    ∷ []
questions_effects dates (delete question) = Command.rest (question_delete question.id) ∷ []
questions_effects dates (delete_success id) =
    Command.navigate questions_page ∷ snack_bar "Question Deleted" ∷ []
questions_effects dates (query_editing id) = Command.rest (question_query_one id) ∷ []
questions_effects dates _ = []

-- What the effects dispatch when a request has succeeded.
unfoldable pub query_all_answer : Dates → List QuestionBody → QuestionsAction
query_all_answer dates items = query_all_success (some (map (question_of_item dates) items))

unfoldable pub save_answer : Dates → QuestionBody → QuestionsAction
save_answer dates item = save_success (question_of_item dates item)

unfoldable pub query_editing_answer : Dates → QuestionBody → QuestionsAction
query_editing_answer dates item = query_editing_success (question_of_item dates item)
