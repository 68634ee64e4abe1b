-- ===== src/Pages/Dashboard/QuestionEditor/InLanguage.antt =====
-- The language of the Monaco editor for the content of a question.
use editor_sh.Prelude.{
  String, true, Option, none, some, List, [], ◌∷◌, foldl, ◌≡◌, refl, ◌∙◌, arith, ℕ, inl, inr, ◌⊎◌,
  sym, subst,
}
use editor_sh.Models.Language.{Language}
use editor_sh.Store.Dashboard.Questions.{Question}
use editor_sh.SharedUi.Monaco.{
  EditorOptions, MonacoEditor, set_options, init_monaco, library_loaded, write_value, timeout,
  register_on_change, start,
}
use editor_sh.Pages.Dashboard.QuestionEditor.{
  QuestionEditor, Side, in_notes, in_content, QuestionEvent, question_bound, language_selected,
  title_typed, typed, model_written, elapsed, library_arrived, options_in, editor_at, with_editor,
  field_changed, value_of, on_language_changed, select_language, set_question, init, bound_page,
  on_change, written, write_elapsed, on_question_event,
}

set_options_stored :
    (o : Option EditorOptions) (m : MonacoEditor) → (set_options o m).editor_options ≡ o
unfolding set_options init_monaco
set_options_stored o m = ground arith

timeout_kept : (m : MonacoEditor) → (timeout m).editor_options ≡ m.editor_options
unfolding timeout
timeout_kept m = ground arith

library_loaded_kept : (m : MonacoEditor) → (library_loaded m).editor_options ≡ m.editor_options
unfolding library_loaded init_monaco
library_loaded_kept m = ground arith

-- With a language in the question, that of the options is its one.
abbrev pub Chosen : Option Language → String → Type 0
Chosen none content_language = Unit
Chosen (some l) content_language = content_language ≡ l.editor_language

module _ {E : Type 0} where
  -- After the first round, with a language in the question the options of the editor are in it.
  pub record IsInLanguage (page : QuestionEditor E) : Type 0 where
    pub ready : page.initialized ≡ true
    pub chosen : Chosen page.question.language page.content_language
    pub given : page.content_editor.editor_options ≡ some (options_in page.content_language)

  -- What is no language comes with none in the question, or changes nothing.
  language-IsInLanguage :
      (o : Option Language) (page : QuestionEditor E)
      → page.initialized ≡ true
      → (page.question.language ≡ o) ⊎ IsInLanguage page
      → page.content_editor.editor_options ≡ some (options_in page.content_language)
      → IsInLanguage (on_language_changed o page)
  unfolding on_language_changed
  language-IsInLanguage none page ready (inl same) given = record {
    ready = ready;
    chosen = subst (λ p. Chosen p page.content_language) (sym same) tt;
    given = given;
  }
  language-IsInLanguage none page ready (inr h) given = h
  language-IsInLanguage (some l) page ready h given = record {
    ready = ready;
    chosen = refl;
    given = set_options_stored _ page.content_editor;
  }

  select-IsInLanguage :
      (o : Option Language) (page : QuestionEditor E)
      → IsInLanguage page
      → IsInLanguage (select_language o page)
  unfolding select_language
  select-IsInLanguage o page h = rw h.ready (
      language-IsInLanguage o (record page { initialized = true; selected_language = o }) refl
        (inr (record { ready = refl; chosen = h.chosen; given = h.given })) h.given)

  set_question-IsInLanguage :
      (question : Option Question) (page : QuestionEditor E)
      → IsInLanguage page
      → IsInLanguage (set_question question page)
  unfolding set_question select_language value_of
  set_question-IsInLanguage none page h = h
  set_question-IsInLanguage (some q) page h =
      let stored = record page {
        question = value_of q;
        initialized = true;
        selected_language = q.language;
      } in
      rw (h.ready) (language-IsInLanguage q.language stored refl (inl refl) h.given)

  with_editor-IsInLanguage :
      (at : Side) (m : MonacoEditor) (page : QuestionEditor E)
      → m.editor_options ≡ (editor_at at page).editor_options
      → IsInLanguage page
      → IsInLanguage (with_editor at m page)
  with_editor-IsInLanguage in_notes m page e h = record {
    ready = h.ready;
    chosen = h.chosen;
    given = h.given;
  }
  with_editor-IsInLanguage in_content m page e h = record {
    ready = h.ready;
    chosen = h.chosen;
    given = e ∙ h.given;
  }

  field-IsInLanguage :
      (at : Side) (passed : Option E) (page : QuestionEditor E)
      → IsInLanguage page
      → IsInLanguage (field_changed at passed page)
  field-IsInLanguage at none page h = h
  field-IsInLanguage in_notes (some event) page h = record {
    ready = h.ready;
    chosen = h.chosen;
    given = h.given;
  }
  field-IsInLanguage in_content (some event) page h = record {
    ready = h.ready;
    chosen = h.chosen;
    given = h.given;
  }

  written-IsInLanguage :
      (flush : String → E) (at : Side) (writes : List String) (editor : Option ℕ)
      (after page : QuestionEditor E)
      → IsInLanguage after
      → IsInLanguage page
      → IsInLanguage (written flush at writes editor after page)
  unfolding on_change
  written-IsInLanguage flush at [] editor after page ha h = h
  written-IsInLanguage flush at (value ∷ later) none after page ha h = ha
  written-IsInLanguage flush at (value ∷ later) (some c) after page ha h =
      field-IsInLanguage at _ after ha

  event-IsInLanguage :
      (flush : String → E) (event : QuestionEvent E) (page : QuestionEditor E)
      → IsInLanguage page
      → IsInLanguage (on_question_event flush page event)
  unfolding on_question_event write_elapsed write_value on_change
  event-IsInLanguage flush (question_bound question) page h =
      set_question-IsInLanguage question page h
  event-IsInLanguage flush (language_selected language) page h = select-IsInLanguage language page h
  event-IsInLanguage flush (title_typed title) page h = record {
    ready = h.ready;
    chosen = h.chosen;
    given = h.given;
  }
  event-IsInLanguage flush (typed at event) page h = field-IsInLanguage at _ page h
  event-IsInLanguage flush (model_written at value) page h =
      with_editor-IsInLanguage at _ page refl h
  event-IsInLanguage flush (elapsed at) page h =
      let m = editor_at at page in
      written-IsInLanguage flush at m.writes m.editor _ page
        (with_editor-IsInLanguage at (timeout m) page (timeout_kept m) h) h
  event-IsInLanguage flush (library_arrived at) page h =
      with_editor-IsInLanguage at _ page (library_loaded_kept (editor_at at page)) h

  -- Whatever questions are bound, languages selected and texts typed: if, after the first round, the
  -- options of the editor for the content are in the language of the question, they are afterwards.
  pub foldl-on_question_event-IsInLanguage :
      (flush : String → E) (events : List (QuestionEvent E)) (page : QuestionEditor E)
      → IsInLanguage page
      → IsInLanguage (foldl (on_question_event flush) page events)
  foldl-on_question_event-IsInLanguage flush [] page h = h
  foldl-on_question_event-IsInLanguage flush (event ∷ events) page h =
      foldl-on_question_event-IsInLanguage flush events (on_question_event flush page event)
        (event-IsInLanguage flush event page h)

-- Opened with nothing, the component starts so.
pub bound_page-IsInLanguage : (E : Type 0) → IsInLanguage (bound_page {E = E} none)
unfolding bound_page init set_question select_language on_language_changed register_on_change start
    set_options
bound_page-IsInLanguage E = record { ready = refl; chosen = tt; given = refl }
