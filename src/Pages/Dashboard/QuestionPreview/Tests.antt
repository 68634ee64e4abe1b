-- ===== src/Pages/Dashboard/QuestionPreview/Tests.antt =====
-- The preview of a question in Go, while an earlier text is still to be written.
use editor_sh.Prelude.{true, false, none, some, [], ◌∷◌, ◌≡◌, refl, length}
use editor_sh.Models.Language.{Language}
use editor_sh.Store.Dashboard.Questions.{Question}
use editor_sh.SharedUi.Monaco.{new_monaco_editor}
use editor_sh.Pages.Dashboard.QuestionPreview.{Preview, read_only_options, on_latest_changes, drain}
use editor_sh.Pages.Dashboard.QuestionPreview.Shown.{text_in, text_in-on_latest_changes}

abbrev go_language : Language
go_language = record { id = "go"; name = "Go"; editor_language = "go"; langcode = "go" }

abbrev in_go : Question
in_go = record {
  id = 7;
  language = some go_language;
  author = "a";
  title = "t";
  notes = "n";
  content = "package main";
  create_time = some 0;
  favorite = false;
}

abbrev unlisted : Question
unlisted = record in_go { language = none }

abbrev preview : Preview
preview = record {
  editor = record new_monaco_editor { editor = some 0; created = 1; writes = "earlier" ∷ [] };
  alive = true;
}

text_in-on_latest_changes_example :
    let m = (on_latest_changes (some in_go) preview).editor in
    let after = drain (length m.writes) m in
    (after.editor ≡ some 1)
    × (after.writes ≡ [])
    × (after.editor_options ≡ some (read_only_options (some go_language)))
    × (text_in 1 none after.calls ≡ some "package main")
text_in-on_latest_changes_example =
    text_in-on_latest_changes preview in_go go_language 0 refl refl refl
