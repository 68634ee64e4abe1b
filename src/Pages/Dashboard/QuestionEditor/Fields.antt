-- ===== src/Pages/Dashboard/QuestionEditor/Fields.antt =====
-- What the fields of a question hold.
use editor_sh.Prelude.{
  ℕ, String, Bool, true, false, Option, none, some, List, [], ◌∷◌, ◌≡◌, ◌⊎◌, refl, sym, subst, ◌∙◌,
  if◌then◌else◌, inr, arith,
}
use editor_sh.Models.Language.{Language}
use editor_sh.Store.Dashboard.Questions.{Question}
use editor_sh.SharedUi.Monaco.{
  MonacoEditor, EditorOptions, set_options, init_monaco, library_loaded, timeout,
}
use editor_sh.Pages.Dashboard.QuestionEditor.{
  FieldValue, text, change_event, QuestionEditor, Side, in_notes, in_content, QuestionEvent,
  question_bound, editor_at, with_editor, field_at, with_field, field_changed, on_language_changed,
  select_language, on_change, written,
}

-- The text that a question has in a field
abbrev pub text_of : Side → Question → String
text_of in_notes q = q.notes
text_of in_content q = q.content

abbrev pub text_of_bound : Side → String → Option Question → String
text_of_bound side before none = before
text_of_bound side before (some q) = text_of side q

-- The editors go on passing changes on.
set_options_on_change :
    (o : Option EditorOptions) (m : MonacoEditor) → (set_options o m).on_change ≡ m.on_change
unfolding set_options init_monaco
set_options_on_change o m = ground arith

pub timeout_on_change : (m : MonacoEditor) → (timeout m).on_change ≡ m.on_change
unfolding timeout
timeout_on_change m = ground arith

pub library_loaded_on_change : (m : MonacoEditor) → (library_loaded m).on_change ≡ m.on_change
unfolding library_loaded init_monaco
library_loaded_on_change m = ground arith

module _ {E : Type 0} where
  -- The text that the question has which was bound last
  abbrev pub last_text : Side → String → List (QuestionEvent E) → String
  last_text side before [] = before
  last_text side before (question_bound question ∷ events) =
      last_text side (text_of_bound side before question) events
  last_text side before (_ ∷ events) = last_text side before events

  -- A text is this one, and anything else is the event of a change.
  abbrev pub Kept : String → FieldValue E → Type 0
  Kept s v = (v ≡ text s) ⊎ ((event : E) × (v ≡ change_event event))

  -- A field holds this text or the event of a change, and its editor passes on its changes.
  pub record Holds (side : Side) (s : String) (page : QuestionEditor E) : Type 0 where
    pub only : Kept s (field_at side page)
    pub registered : (editor_at side page).on_change ≡ true

  kept-Holds :
      (side : Side) (s : String) (page after : QuestionEditor E)
      → field_at side after ≡ field_at side page
      → (editor_at side after).on_change ≡ (editor_at side page).on_change
      → Holds side s page
      → Holds side s after
  kept-Holds side s page after same e h = record {
    only = subst (Kept s) (sym same) h.only;
    registered = e ∙ h.registered;
  }

  -- An editor that goes on passing changes on
  pub with_editor-Holds :
      (at side : Side) (s : String) (m : MonacoEditor) (page : QuestionEditor E)
      → m.on_change ≡ (editor_at at page).on_change
      → Holds side s page
      → Holds side s (with_editor at m page)
  with_editor-Holds in_notes in_notes s m page e h = record {
    only = h.only;
    registered = e ∙ h.registered;
  }
  with_editor-Holds in_notes in_content s m page e h = record {
    only = h.only;
    registered = h.registered;
  }
  with_editor-Holds in_content in_notes s m page e h = record {
    only = h.only;
    registered = h.registered;
  }
  with_editor-Holds in_content in_content s m page e h = record {
    only = h.only;
    registered = e ∙ h.registered;
  }

  with_field-Holds :
      (at side : Side) (s : String) (event : E) (page : QuestionEditor E)
      → Holds side s page
      → Holds side s (with_field at (change_event event) page)
  with_field-Holds in_notes in_notes s event page h = record {
    only = inr (event, refl);
    registered = h.registered;
  }
  with_field-Holds in_notes in_content s event page h = record {
    only = h.only;
    registered = h.registered;
  }
  with_field-Holds in_content in_notes s event page h = record {
    only = h.only;
    registered = h.registered;
  }
  with_field-Holds in_content in_content s event page h = record {
    only = inr (event, refl);
    registered = h.registered;
  }

  field_changed-Holds :
      (at side : Side) (s : String) (passed : Option E) (page : QuestionEditor E)
      → Holds side s page
      → Holds side s (field_changed at passed page)
  field_changed-Holds at side s none page h = h
  field_changed-Holds at side s (some event) page h = with_field-Holds at side s event page h

  pub on_change-Holds :
      (at side : Side) (s : String) (event : E) (page : QuestionEditor E)
      → Holds side s page
      → Holds side s (on_change at event page)
  unfolding on_change
  on_change-Holds at side s event page h = field_changed-Holds at side s _ page h

  pub written-Holds :
      (flush : String → E) (at side : Side) (s : String) (writes : List String) (editor : Option ℕ)
      (after page : QuestionEditor E)
      → Holds side s after
      → Holds side s page
      → Holds side s (written flush at writes editor after page)
  written-Holds flush at side s [] editor after page ha h = h
  written-Holds flush at side s (value ∷ later) none after page ha h = ha
  written-Holds flush at side s (value ∷ later) (some c) after page ha h =
      on_change-Holds at side s (flush value) after ha

  language-Holds :
      (side : Side) (s : String) (language : Option Language) (page : QuestionEditor E)
      → Holds side s page
      → Holds side s (on_language_changed language page)
  unfolding on_language_changed
  language-Holds side s none page h = h
  language-Holds in_notes s (some l) page h = record { only = h.only; registered = h.registered }
  language-Holds in_content s (some l) page h = record {
    only = h.only;
    registered = set_options_on_change _ page.content_editor ∙ h.registered;
  }

  pub initialized_or :
      (side : Side) (s : String) (b : Bool) (x y : QuestionEditor E)
      → Holds side s x
      → Holds side s y
      → Holds side s (if b then x else y)
  initialized_or side s true x y hx hy = hx
  initialized_or side s false x y hx hy = hy

  pub select-Holds :
      (side : Side) (s : String) (language : Option Language) (page : QuestionEditor E)
      → Holds side s page
      → Holds side s (select_language language page)
  unfolding select_language
  select-Holds side s language page h =
      let selected = record page { selected_language = language } in
      let hs = selected-Holds side h in
      initialized_or side s page.initialized _ selected (language-Holds side s language selected hs)
        hs
    where
      selected-Holds :
          (at : Side) → Holds at s page → Holds at s (record page { selected_language = language })
      selected-Holds in_notes h = record { only = h.only; registered = h.registered }
      selected-Holds in_content h = record { only = h.only; registered = h.registered }
