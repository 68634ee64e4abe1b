-- ===== src/Pages/Dashboard/QuestionEditor/Saved.antt =====
-- What the editor of a question saves for the texts in its two Monaco editors.
use editor_sh.Prelude.{String, true, Option, none, some, List, [], ◌∷◌, foldl, ◌≡◌, refl, inl}
use editor_sh.Store.Dashboard.Questions.{Question}
use editor_sh.SharedUi.Monaco.{write_value, timeout, content_changed, register_on_change, start}
use editor_sh.Pages.Dashboard.QuestionEditor.{
  change_event, QuestionEditor, Side, in_notes, in_content, QuestionEvent, question_bound,
  language_selected, title_typed, typed, model_written, elapsed, library_arrived, editor_at,
  field_of, field_at, value_of, set_question, init, first_page, bound_page, on_change,
  write_elapsed, on_question_event, on_save,
}
use editor_sh.Pages.Dashboard.QuestionEditor.Fields.{
  text_of, text_of_bound, timeout_on_change, library_loaded_on_change, last_text, Kept, Holds,
  with_editor-Holds, on_change-Holds, written-Holds, initialized_or, select-Holds,
}

module _ {E : Type 0} where
  set_question-Holds :
      (side : Side) (s : String) (question : Option Question) (page : QuestionEditor E)
      → (editor_at side page).on_change ≡ true
      → Holds side s page
      → Holds side (text_of_bound side s question) (set_question question page)
  unfolding set_question value_of
  set_question-Holds side s none page e h = h
  set_question-Holds side s (some q) page e h =
      let stored = record page { question = value_of q } in
      let hs = stored-Holds side e in
      initialized_or side (text_of side q) page.initialized _ stored
        (select-Holds side (text_of side q) q.language stored hs) hs
    where
      stored-Holds :
          (at : Side)
          → (editor_at at page).on_change ≡ true
          → Holds at (text_of at q) (record page { question = value_of q })
      stored-Holds in_notes e = record { only = inl refl; registered = e }
      stored-Holds in_content e = record { only = inl refl; registered = e }

  titled-Holds :
      (side : Side) (s title : String) (page : QuestionEditor E)
      → Holds side s page
      → Holds side s (record page { question = record page.question { title = title } })
  titled-Holds in_notes s title page h = record { only = h.only; registered = h.registered }
  titled-Holds in_content s title page h = record { only = h.only; registered = h.registered }

  foldl-Holds :
      (flush : String → E) (side : Side) (events : List (QuestionEvent E)) (s : String)
      (page : QuestionEditor E)
      → Holds side s page
      → Holds side (last_text side s events) (foldl (on_question_event flush) page events)
  unfolding on_question_event write_elapsed write_value
  foldl-Holds flush side [] s page h = h
  foldl-Holds flush side (question_bound question ∷ events) s page h =
      foldl-Holds flush side events _ _ (set_question-Holds side s question page h.registered h)
  foldl-Holds flush side (language_selected language ∷ events) s page h =
      foldl-Holds flush side events s _ (select-Holds side s language page h)
  foldl-Holds flush side (title_typed title ∷ events) s page h =
      foldl-Holds flush side events s _ (titled-Holds side s title page h)
  foldl-Holds flush side (typed at event ∷ events) s page h =
      foldl-Holds flush side events s _ (on_change-Holds at side s event page h)
  foldl-Holds flush side (model_written at value ∷ events) s page h =
      foldl-Holds flush side events s _ (with_editor-Holds at side s _ page refl h)
  foldl-Holds flush side (elapsed at ∷ events) s page h =
      let m = editor_at at page in
      foldl-Holds flush side events s _ (
        written-Holds flush at side s m.writes m.editor _ page
          (with_editor-Holds at side s (timeout m) page (timeout_on_change m) h) h)
  foldl-Holds flush side (library_arrived at ∷ events) s page h =
      foldl-Holds flush side events s _
        (with_editor-Holds at side s _ page (library_loaded_on_change (editor_at at page)) h)

  init-Holds :
      (side : Side) (s : String) (page : QuestionEditor E)
      → Holds side s page
      → Holds side s (init page)
  unfolding init
  init-Holds side s page h = ready side (select-Holds side s page.question.language page h)
    where
      ready :
          {p : QuestionEditor E} (at : Side)
          → Holds at s p
          → Holds at s (record p { initialized = true })
      ready in_notes h = record { only = h.only; registered = h.registered }
      ready in_content h = record { only = h.only; registered = h.registered }

  first-Holds : (side : Side) → Holds side "" (first_page {E = E})
  unfolding register_on_change start
  first-Holds in_notes = record { only = inl refl; registered = refl }
  first-Holds in_content = record { only = inl refl; registered = refl }

  bound_page-Holds :
      (side : Side) (question : Option Question)
      → Holds {E = E} side (text_of_bound side "" question) (bound_page {E = E} question)
  unfolding bound_page
  bound_page-Holds side question =
      let h = first-Holds side in
      init-Holds side (text_of_bound side "" question) (set_question question first_page)
        (set_question-Holds side "" question first_page h.registered h)

  changed :
      (side : Side) (event : E) (page : QuestionEditor E)
      → (editor_at side page).on_change ≡ true
      → field_at side (on_change side event page) ≡ change_event event
  unfolding on_change content_changed
  changed in_notes event page e = rw e refl
  changed in_content event page e = rw e refl

  -- Over every history of a component in a browser and for both fields: a text that is saved is the
  -- one of the question that was bound last, never one that was typed; and right after a change in
  -- an editor what is saved for it is the event of the change in place of a text.
  pub on_save_lem :
      (flush : String → E) (side : Side) (question : Option Question)
      (events : List (QuestionEvent E)) (event : E)
      → let page = foldl (on_question_event flush) (bound_page question) events in
        Kept (last_text side (text_of_bound side "" question) events) (field_of side (on_save page))
        × (field_of side (on_save (on_change side event page)) ≡ change_event event)
  unfolding on_save
  on_save_lem flush side question events event =
      let h =
        foldl-Holds flush side events (text_of_bound side "" question) (bound_page question)
          (bound_page-Holds side question) in
      (h.only, changed side event _ h.registered)
