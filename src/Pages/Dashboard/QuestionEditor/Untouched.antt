-- ===== src/Pages/Dashboard/QuestionEditor/Untouched.antt =====
-- What becomes of a question that is opened in its editor and saved as it is.
use editor_sh.Prelude.{
  String, Bool, true, false, Option, none, some, [], ◌∷◌, foldl, ◌≡◌, refl, if◌then◌else◌,
}
use editor_sh.Models.Language.{Language}
use editor_sh.Store.Dashboard.Questions.{Question}
use editor_sh.SharedUi.Monaco.{
  MonacoEditor, EditorOptions, set_options, init_monaco, library_loaded, write_value, timeout,
  content_changed, register_on_change, start, view_init,
}
use editor_sh.Pages.Dashboard.QuestionEditor.{
  change_event, QuestionEditor, in_content, question_bound, model_written, elapsed, library_arrived,
  on_language_changed, value_of, select_language, set_question, init, first_page, bound_page,
  on_change, write_elapsed, on_question_event, on_save,
}

-- An editor that waits for the library, with nothing to write
Waits : MonacoEditor → Type 0
Waits m = (m.editor ≡ none) × (m.awaiting ≡ true) × (m.on_change ≡ true) × (m.writes ≡ [])

set_options-Waits :
    (o : Option EditorOptions) (m : MonacoEditor) → Waits m → Waits (set_options o m)
unfolding Waits set_options
set_options-Waits o m (e, a, c, w) = rw e (refl, a, c, w)

module _ {E : Type 0} where
  language-Waits :
      (o : Option Language) (page : QuestionEditor E)
      → Waits page.content_editor
      → Waits (on_language_changed o page).content_editor
  unfolding on_language_changed
  language-Waits none page h = h
  language-Waits (some l) page h = set_options-Waits _ page.content_editor h

  either-Waits :
      (b : Bool) (x y : QuestionEditor E)
      → Waits x.content_editor
      → Waits y.content_editor
      → Waits (if b then x else y).content_editor
  either-Waits true x y hx hy = hx
  either-Waits false x y hx hy = hy

  select-Waits :
      (o : Option Language) (page : QuestionEditor E)
      → Waits page.content_editor
      → Waits (select_language o page).content_editor
  unfolding select_language
  select-Waits o page h =
      let selected = record page { selected_language = o } in
      either-Waits page.initialized _ selected (language-Waits o selected h) h

  set_question-Waits :
      (question : Option Question) (page : QuestionEditor E)
      → Waits page.content_editor
      → Waits (set_question question page).content_editor
  unfolding set_question
  set_question-Waits none page h = h
  set_question-Waits (some q) page h =
      let stored = record page { question = value_of q } in
      either-Waits page.initialized _ stored (select-Waits q.language stored h) h

bound_page-Waits :
    (E : Type 0) (question : Option Question) → Waits (bound_page {E = E} question).content_editor
unfolding Waits bound_page init register_on_change start view_init set_options
bound_page-Waits E question =
    select-Waits {E = E} _ (set_question question first_page)
      (set_question-Waits question first_page (refl, refl, refl, refl))

module _ {E : Type 0} where
  arrival :
      (flush : String → E) (value : String) (page : QuestionEditor E)
      → Waits page.content_editor
      → (foldl (on_question_event flush) page (
          model_written in_content value
          ∷ library_arrived in_content
          ∷ elapsed in_content
          ∷ [])).question.content
        ≡ change_event (flush value)
  unfolding Waits on_question_event write_value library_loaded init_monaco write_elapsed timeout
      on_change content_changed
  arrival flush value page (e, a, c, w) = rw (a, w, c) refl

  -- Where Monaco fires a change for a text that the binding writes, a question that is opened and
  -- saved without a key pressed is saved with the event in place of its content: its content is
  -- written into the editor when the library is there, and comes back as a change.
  pub on_save-untouched :
      (flush : String → E) (question : Option Question) (q : Question)
      → let arrives =
          question_bound (some q)
          ∷ model_written in_content q.content
          ∷ library_arrived in_content
          ∷ elapsed in_content
          ∷ [] in
        (on_save (foldl (on_question_event flush) (bound_page question) arrives)).content
        ≡ change_event (flush q.content)
  unfolding on_save on_question_event
  on_save-untouched flush question q =
      arrival flush q.content (set_question (some q) (bound_page question))
        (set_question-Waits (some q) (bound_page question) (bound_page-Waits E question))
