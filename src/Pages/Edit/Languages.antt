-- ===== src/Pages/Edit/Languages.antt =====
-- The language of an edit page: the header with its two dialogs (codepad-editor-header,
-- codepad-language-dialog and codepad-langcode-dialog in pages/codepad/components), and the part of
-- pages/codepad/pages/edit/codepad-edit.component.ts that hands a language to the room, the store,
-- the editor and the header.
pub mod Agreeing
pub mod Agreement
mod Tests
use editor_sh.Prelude.{
  String, Bool, true, false, Option, none, some, List, [], ◌∷◌, ◌++◌, str_eq, if◌then◌else◌,
}
use editor_sh.Models.Language.{Language, get_language_by_id}
use editor_sh.Service.Message.{Content, set_lang, run_code, reset}
use editor_sh.Store.Codepad.{CodepadAction, EditorState, editor_state_reducer}
use editor_sh.SharedUi.Monaco.{MonacoEditor, EditorOptions, change_language}

pub data DialogAction : Type 0 where
  select show_info : DialogAction

pub record LanguageDialogResult : Type 0 where
  pub language : Language
  pub action : DialogAction

-- How the language dialog is closed: by a click on a language or on its info, or without one.
pub data Click : Type 0 where
  no_click : Click
  language_click info_click : Language → Click

unfoldable pub dialog_result : Click → Option LanguageDialogResult
dialog_result no_click = none
dialog_result (language_click lang) = some (record { language = lang; action = select })
dialog_result (info_click lang) = some (record { language = lang; action = show_info })

-- What the header does with a result: it opens the dialog of the examples for the id of a language,
-- or emits `languageChange`.
pub data HeaderEvent : Type 0 where
  langcode_dialog : String → HeaderEvent
  language_change : Language → HeaderEvent

unfoldable pub on_language_dialog_result : Option LanguageDialogResult → Option HeaderEvent
on_language_dialog_result none = none
on_language_dialog_result (some it) = elim it.action [
  | show_info ↦ some (langcode_dialog it.language.id)
  | select ↦ some (language_change it.language)
]

-- `changeLanguage` of the header
unfoldable pub header_change_language : Language → Language → Language
header_change_language language shown = if str_eq shown.id language.id then shown else language

-- The options of the editor in the dialog of the examples, which starts as one for TypeScript
abbrev pub example_options : EditorOptions
example_options = record { language = some "typescript"; value = some ""; read_only = true }

unfoldable pub init_example : String → EditorOptions
init_example language_id = elim (get_language_by_id language_id) [
  | none ↦ example_options
  | some l ↦ record example_options { language = some l.editor_language; value = some l.langcode }
]

-- `header` is the language that the header shows, `code` the text in the editor, `client` whether
-- the service has a current client, and `sent` what was sent to the room.
pub record LanguagePage : Type 0 where
  pub header : Language
  pub editor : MonacoEditor
  pub code : String
  pub editor_state : EditorState
  pub client : Bool
  pub sent : List Content

-- `onLanguageChanged`, for the language of the store, which may be `undefined`
unfoldable pub on_language_changed : Option String → LanguagePage → LanguagePage
unfolding header_change_language
on_language_changed none page = page
on_language_changed (some language_id) page = elim (get_language_by_id language_id) [
  | none ↦ page
  | some l ↦ record page {
    editor = change_language (some page.code) l.editor_language page.editor;
    header = header_change_language l page.header;
  }
]

-- `===`, which the selector of the language tells its changes by
abbrev pub same_language : Option String → Option String → Bool
same_language none none = true
same_language (some l) (some k) = str_eq l k
same_language _ _ = false

-- An action of the store, with what the page is told of it
unfoldable pub dispatch_language : CodepadAction → LanguagePage → LanguagePage
unfolding on_language_changed
dispatch_language action page =
    let state = editor_state_reducer page.editor_state action in
    let after = record page { editor_state = state } in
    if same_language page.editor_state.language state.language
    then after
    else on_language_changed state.language after

-- `onCommandSync`, where `undefined` and the empty text are both falsy
unfoldable pub on_command_sync : Option String → LanguagePage → LanguagePage
unfolding dispatch_language
on_command_sync none page = page
on_command_sync (some lang_id) page =
    if str_eq lang_id "" then page else elim (get_language_by_id lang_id) [
      | none ↦ page
      | some l ↦ dispatch_language (CodepadAction.language_changed lang_id) page
    ]

abbrev send : Content → LanguagePage → LanguagePage
send content page = if page.client then record page { sent = page.sent ++ (content ∷ []) } else page

-- `onLanguageChangeClicked`, `onReset` and `onRunCode`
unfoldable pub on_language_change_clicked : Language → LanguagePage → LanguagePage
on_language_change_clicked language page = send (set_lang language.id) page

unfoldable pub on_reset : LanguagePage → LanguagePage
on_reset page = send reset page

unfoldable pub on_run_code : LanguagePage → LanguagePage
on_run_code page = send (run_code page.code) page

-- A click in the language dialog, as far as the page is concerned
abbrev header_event : Option HeaderEvent → LanguagePage → LanguagePage
header_event (some (language_change language)) page = on_language_change_clicked language page
header_event _ page = page

unfoldable pub clicked : Click → LanguagePage → LanguagePage
unfolding dialog_result on_language_dialog_result on_language_change_clicked
clicked click page = header_event (on_language_dialog_result (dialog_result click)) page

-- What happens on a page: a click in the dialog, a command of the room, a text that is typed, and
-- the two other buttons.
pub data LanguageEvent : Type 0 where
  click : Click → LanguageEvent
  command : Option String → LanguageEvent
  type_text : String → LanguageEvent
  press_reset press_run : LanguageEvent

unfoldable pub on_language_event : LanguagePage → LanguageEvent → LanguagePage
unfolding clicked on_command_sync on_reset on_run_code
on_language_event page (click at) = clicked at page
on_language_event page (command lang) = on_command_sync lang page
on_language_event page (type_text text) = record page { code = text }
on_language_event page press_reset = on_reset page
on_language_event page press_run = on_run_code page
