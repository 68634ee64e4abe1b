-- ===== src/Pages/Edit/Languages/Tests.antt =====
-- A page that shows TypeScript, whose user clicks on Crystal.
use editor_sh.Prelude.{true, some, none, List, [], ◌∷◌, refl, foldl, inl, inr, ◌≡◌}
use editor_sh.Models.Language.{Language}
use editor_sh.Service.Message.{set_lang}
use editor_sh.Store.Codepad.{initial_editor_state}
use editor_sh.SharedUi.Monaco.{new_monaco_editor, set_model}
use editor_sh.Pages.Edit.Languages.{
  LanguagePage, LanguageEvent, click, command, type_text, press_reset, press_run, language_click,
  info_click, on_language_event, on_command_sync, clicked,
}
use editor_sh.Pages.Edit.Languages.Agreeing.{IsAgreed}
use editor_sh.Pages.Edit.Languages.Agreement.{
  foldl-on_language_event-IsAgreed, clicked-on_command_sync,
}

abbrev typescript : Language
typescript = record {
  id = "typescript";
  name = "Typescript";
  editor_language = "typescript";
  langcode = "typescript";
}

abbrev crystal : Language
crystal = record {
  id = "crystal";
  name = "Crystal";
  editor_language = "ruby";
  langcode = "crystal";
}

abbrev page : LanguagePage
page = record {
  header = typescript;
  editor = record new_monaco_editor { editor = some 0 };
  code = "puts 1";
  editor_state = initial_editor_state;
  client = true;
  sent = [];
}

page-IsAgreed : IsAgreed 0 page
page-IsAgreed = record { mounted = refl; agrees = tt }

abbrev happenings : List LanguageEvent
happenings =
    click (language_click crystal)
    ∷ command (some "crystal")
    ∷ type_text "puts 2"
    ∷ command (some "cobol")
    ∷ click (info_click crystal)
    ∷ press_run
    ∷ command none
    ∷ press_reset
    ∷ command (some "typescript")
    ∷ []

foldl-on_language_event-IsAgreed_example : IsAgreed 0 (foldl on_language_event page happenings)
foldl-on_language_event-IsAgreed_example =
    foldl-on_language_event-IsAgreed 0 happenings page page-IsAgreed

clicked-on_command_sync_example :
    let asked = clicked (language_click crystal) page in
    let after = on_command_sync (some "crystal") asked in
    (asked.sent ≡ set_lang "crystal" ∷ [])
    × (after.editor_state.language ≡ some "crystal")
    × (after.header.id ≡ "crystal")
    × (after.editor.calls ≡ set_model 0 "puts 1" "ruby" ∷ [])
clicked-on_command_sync_example =
    clicked-on_command_sync 0 crystal page (inr (inr (inr (inr (inr (inr (inl refl))))))) refl
      page-IsAgreed
