-- ===== src/Pages/Dashboard/QuestionEditor.antt =====
-- The editor of a question
-- (pages/dashboard/pages/questions/components/question-editor/question-editor.component.ts), with
-- the selector of its language (shared-ui/language-selector) and the two Monaco editors that its
-- template binds to the notes and the content. `E` is the type of Monaco's events.
pub mod Fields
pub mod Saved
pub mod Untouched
pub mod InLanguage
mod Tests
use editor_sh.Prelude.{
  ℕ, String, Bool, true, false, Option, none, some, List, [], ◌∷◌, if◌then◌else◌,
}
use editor_sh.Models.Language.{Language}
use editor_sh.Store.Dashboard.Questions.{Question}
use editor_sh.SharedUi.Monaco.{
  EditorOptions, MonacoEditor, new_monaco_editor, start, set_options, library_loaded, write_value,
  timeout, register_on_change, content_changed,
}

-- What a field holds that the template binds to a Monaco editor: a text, or what the editor passed
-- on for a change.
pub data FieldValue (E : Type 0) : Type 0 where
  text : String → FieldValue E
  change_event : E → FieldValue E

-- `questionValue`
pub record QuestionValue (E : Type 0) : Type 0 where
  pub id : ℕ
  pub language : Option Language
  pub author : String
  pub title : String
  pub notes : FieldValue E
  pub content : FieldValue E
  pub create_time : Option ℕ
  pub favorite : Bool

-- `initialized` is set at the end of the first round of `ngOnInit`, from which on the component and
-- the selector hear of changes; `selected_language` is the value of the selector, where `none` also
-- stands for a text, and `content_language` the language in `contentEditorOptions`.
pub record QuestionEditor (E : Type 0) : Type 0 where
  pub question : QuestionValue E
  pub initialized : Bool
  pub selected_language : Option Language
  pub content_language : String
  pub notes_editor : MonacoEditor
  pub content_editor : MonacoEditor

abbrev pub options_in : String → EditorOptions
options_in language = record { language = some language; value = none; read_only = false }

abbrev bound_editor : String → MonacoEditor
bound_editor language = register_on_change (start true (some (options_in language)))

module _ {E : Type 0} where
  -- `value.toObject()`
  unfoldable pub value_of : Question → QuestionValue E
  value_of q = record {
    id = q.id;
    language = q.language;
    author = q.author;
    title = q.title;
    notes = text q.notes;
    content = text q.content;
    create_time = q.create_time;
    favorite = q.favorite;
  }

  abbrev pub with_content_editor : MonacoEditor → QuestionEditor E → QuestionEditor E
  with_content_editor m page = record page { content_editor = m }

  -- `onLanguageChanged`, where `none` is what is no language
  unfoldable pub on_language_changed : Option Language → QuestionEditor E → QuestionEditor E
  on_language_changed none page = page
  on_language_changed (some l) page = record page {
    question = record page.question { language = some l };
    content_language = l.editor_language;
    content_editor = set_options (some (options_in l.editor_language)) page.content_editor;
  }

  -- A new value of the selector, by its setter or by its user
  unfoldable pub select_language : Option Language → QuestionEditor E → QuestionEditor E
  unfolding on_language_changed
  select_language language page =
      let selected = record page { selected_language = language } in
      if page.initialized then on_language_changed language selected else selected

  -- The setter of `question`, with `onQuestionChanged`
  unfoldable pub set_question : Option Question → QuestionEditor E → QuestionEditor E
  unfolding value_of select_language
  set_question none page = page
  set_question (some q) page =
      let stored = record page { question = value_of q } in
      if page.initialized then select_language q.language stored else stored

  -- `ngOnInit`, of the component and then of the selector
  unfoldable pub init : QuestionEditor E → QuestionEditor E
  unfolding select_language
  init page = record (select_language page.question.language page) { initialized = true }

  abbrev first_value : QuestionValue E
  first_value = record {
    id = 0;
    language = none;
    author = "";
    title = "";
    notes = text "";
    content = text "";
    create_time = none;
    favorite = false;
  }

  -- A component in a page of a browser, before anything is bound to it
  abbrev pub first_page : QuestionEditor E
  first_page = record {
    question = first_value;
    initialized = false;
    selected_language = none;
    content_language = "typescript";
    notes_editor = bound_editor "markdown";
    content_editor = bound_editor "typescript";
  }

  -- With the question that is bound to it at first
  unfoldable pub bound_page : Option Question → QuestionEditor E
  unfolding set_question init
  bound_page question = init (set_question question first_page)

pub data Side : Type 0 where
  in_notes in_content : Side

module _ {E : Type 0} where
  abbrev pub editor_at : Side → QuestionEditor E → MonacoEditor
  editor_at in_notes page = page.notes_editor
  editor_at in_content page = page.content_editor

  abbrev pub with_editor : Side → MonacoEditor → QuestionEditor E → QuestionEditor E
  with_editor in_notes m page = record page { notes_editor = m }
  with_editor in_content m page = record page { content_editor = m }

  abbrev pub field_of : Side → QuestionValue E → FieldValue E
  field_of in_notes q = q.notes
  field_of in_content q = q.content

  abbrev pub field_at : Side → QuestionEditor E → FieldValue E
  field_at side page = field_of side page.question

  abbrev pub with_field : Side → FieldValue E → QuestionEditor E → QuestionEditor E
  with_field in_notes v page = record page { question = record page.question { notes = v } }
  with_field in_content v page = record page { question = record page.question { content = v } }

  abbrev pub field_changed : Side → Option E → QuestionEditor E → QuestionEditor E
  field_changed side none page = page
  field_changed side (some event) page = with_field side (change_event event) page

  -- A change in an editor: the binding stores what the editor passes on.
  unfoldable pub on_change : Side → E → QuestionEditor E → QuestionEditor E
  on_change side event page = field_changed side (content_changed event (editor_at side page)) page

  -- `after` is the page whose oldest write was handed to the editor, if there is an editor.
  abbrev pub written :
      (String → E)
      → Side
      → List String
      → Option ℕ
      → (after page : QuestionEditor E) → QuestionEditor E
  written flush side [] editor after page = page
  written flush side (value ∷ later) none after page = after
  written flush side (value ∷ later) (some c) after page = on_change side (flush value) after

  -- The timeout of a `writeValue`; the editor fires `flush value` for a new value.
  unfoldable pub write_elapsed : (String → E) → Side → QuestionEditor E → QuestionEditor E
  unfolding on_change
  write_elapsed flush side page =
      let m = editor_at side page in
      written flush side m.writes m.editor (with_editor side (timeout m) page) page

-- What happens to the component: by the page, its user, Angular's binding and Monaco.
pub data QuestionEvent (E : Type 0) : Type 0 where
  question_bound : Option Question → QuestionEvent E
  language_selected : Option Language → QuestionEvent E
  title_typed : String → QuestionEvent E
  typed : Side → E → QuestionEvent E
  model_written : Side → String → QuestionEvent E
  elapsed library_arrived : Side → QuestionEvent E

module _ {E : Type 0} where
  unfoldable pub on_question_event :
      (String → E) → QuestionEditor E → QuestionEvent E → QuestionEditor E
  unfolding set_question select_language on_change write_elapsed
  on_question_event flush page (question_bound question) = set_question question page
  on_question_event flush page (language_selected language) = select_language language page
  on_question_event flush page (title_typed title) = record page {
    question = record page.question { title = title };
  }
  on_question_event flush page (typed side event) = on_change side event page
  on_question_event flush page (model_written side value) =
      with_editor side (write_value value (editor_at side page)) page
  on_question_event flush page (elapsed side) = write_elapsed flush side page
  on_question_event flush page (library_arrived side) =
      with_editor side (library_loaded (editor_at side page)) page

  -- `onSave` and `onDelete` emit the question of the component.
  unfoldable pub on_save : QuestionEditor E → QuestionValue E
  on_save page = page.question
