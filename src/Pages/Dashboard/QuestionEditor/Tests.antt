-- ===== src/Pages/Dashboard/QuestionEditor/Tests.antt =====
-- The editor of a question, whose events are texts.
use editor_sh.Prelude.{String, false, none, some, List, [], ◌∷◌, ◌+++◌, foldl, ◌≡◌}
use editor_sh.Models.Language.{Language}
use editor_sh.Store.Dashboard.Questions.{Question}
use editor_sh.Pages.Dashboard.QuestionEditor.{
  change_event, QuestionEditor, in_content, QuestionEvent, question_bound, language_selected,
  title_typed, model_written, library_arrived, field_of, bound_page, on_change, on_question_event,
  on_save,
}
use editor_sh.Pages.Dashboard.QuestionEditor.Fields.{Kept, last_text}
use editor_sh.Pages.Dashboard.QuestionEditor.Saved.{on_save_lem}

abbrev flush : String → String
flush value = "flush: " +++ value

abbrev go_language : Language
go_language = record { id = "go"; name = "Go"; editor_language = "go"; langcode = "go" }

abbrev question : Question
question = record {
  id = 7;
  language = some go_language;
  author = "a";
  title = "t";
  notes = "n";
  content = "package main";
  create_time = some 0;
  favorite = false;
}

abbrev events : List (QuestionEvent String)
events =
    question_bound (some question)
    ∷ model_written in_content "package main"
    ∷ library_arrived in_content
    ∷ title_typed "u"
    ∷ language_selected none
    ∷ []

abbrev page : QuestionEditor String
page = foldl (on_question_event flush) (bound_page none) events

on_save_lem_example :
    Kept (last_text in_content "" events) (field_of in_content (on_save page))
    × (field_of in_content (on_save (on_change in_content "typed" page)) ≡ change_event "typed")
on_save_lem_example = on_save_lem flush in_content none events "typed"
