-- ===== src/Pages/Dashboard/QuestionPreview.antt =====
-- The preview of the selected question
-- (pages/dashboard/pages/questions/components/question-preview/question-preview.component.ts), from
-- the time on when its template has the editor component.
pub mod Shown
mod Tests
use editor_sh.Prelude.{
  ℕ, zero, suc, Bool, true, false, Option, none, some, List, foldl, if◌then◌else◌,
}
use editor_sh.Models.Language.{Language}
use editor_sh.Store.Dashboard.Questions.{Question}
use editor_sh.SharedUi.Monaco.{
  EditorOptions, MonacoEditor, set_options, write_value, timeout, library_loaded,
}

-- The editor component, and whether the subscription to the latest changes is alive, which an
-- exception in it ends.
pub record Preview : Type 0 where
  pub editor : MonacoEditor
  pub alive : Bool

abbrev pub read_only_options : Option Language → EditorOptions
read_only_options none = record { language = none; value = none; read_only = true }
read_only_options (some l) = record {
  language = some l.editor_language;
  value = none;
  read_only = true;
}

abbrev options_in : Option Language → Option EditorOptions
options_in none = none
options_in (some l) = some (read_only_options (some l))

-- `getEditorOptions`, where `none` is the TypeError of a question without a language
unfoldable pub get_editor_options : Option Question → Option EditorOptions
get_editor_options none = some (read_only_options none)
get_editor_options (some question) = options_in question.language

abbrev write_content : Option Question → MonacoEditor → MonacoEditor
write_content none m = m
write_content (some question) m = write_value question.content m

abbrev with_options : Option Question → Option EditorOptions → Preview → Preview
with_options question none preview = record preview { alive = false }
with_options question (some value) preview = record preview {
  editor = write_content question (set_options (some value) preview.editor);
}

-- What the subscription of `ngAfterViewInit` does for a question
unfoldable pub on_latest_changes : Option Question → Preview → Preview
unfolding get_editor_options
on_latest_changes question preview =
    if preview.alive then with_options question (get_editor_options question) preview else preview

pub data PreviewEvent : Type 0 where
  selected : Option Question → PreviewEvent
  elapsed library_arrived : PreviewEvent

unfoldable pub on_preview_event : Preview → PreviewEvent → Preview
unfolding on_latest_changes
on_preview_event preview (selected question) = on_latest_changes question preview
on_preview_event preview elapsed = record preview { editor = timeout preview.editor }
on_preview_event preview library_arrived = record preview { editor = library_loaded preview.editor }

abbrev pub run : Preview → List PreviewEvent → Preview
run preview events = foldl on_preview_event preview events

-- A number of timeouts
abbrev pub drain : ℕ → MonacoEditor → MonacoEditor
drain zero m = m
drain (suc n) m = drain n (timeout m)
