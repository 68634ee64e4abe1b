-- ===== src/Pages/Dashboard/SettingsPage.antt =====
-- The page of the settings (pages/dashboard/pages/settings/main/settings.component.ts), but for its
-- question about a new key, which stands with the confirmations.
pub mod Saving
mod Tests
use editor_sh.Prelude.{ℕ, String, Bool, false, Option, none, some, or_else, List, [], ◌∷◌, foldl}
use editor_sh.Models.Language.{Language}
use editor_sh.Store.Common.{ApiErrors, absent, messages, fields, ApiErrorState, CommonAction}
use editor_sh.Store.Common.Effects.{field_value}
use editor_sh.Store.Dashboard.Settings.{Setting, SettingsAction}
use editor_sh.Store.Action.{WebsiteAction}

-- `settingParams`. Before a setting came there is no id, and the three marks are `undefined`, for
-- which `false` stands.
pub record SettingForm : Type 0 where
  pub id : Option ℕ
  pub api_key : String
  pub email : String
  pub name : String
  pub language : Language
  pub pads_private : Bool
  pub email_subscription : Bool
  pub code_execution : Bool

pub record FieldErrors : Type 0 where
  pub name : Option String
  pub email : Option String

pub record SettingsPage : Type 0 where
  pub setting_params : SettingForm
  pub field_errors : FieldErrors

-- `Languages.typescript`
abbrev pub typescript : Language
typescript = record {
  id = "typescript";
  name = "Typescript";
  editor_language = "typescript";
  langcode = "typescript";
}

abbrev pub new_settings_page : SettingsPage
new_settings_page = record {
  setting_params = record {
    id = none;
    api_key = "";
    email = "";
    name = "";
    language = typescript;
    pads_private = false;
    email_subscription = false;
    code_execution = false;
  };
  field_errors = record { name = none; email = none };
}

-- `onSettingsStateChanged`; an id of 0 and an empty text are their own defaults.
unfoldable pub on_settings_state_changed : Option Setting → SettingsPage → SettingsPage
on_settings_state_changed none page = page
on_settings_state_changed (some setting) page = record page {
  setting_params = record {
    id = some setting.id;
    api_key = setting.api_key;
    email = setting.email;
    name = setting.name;
    language = or_else setting.language typescript;
    pads_private = setting.pads_private;
    email_subscription = setting.email_subscription;
    code_execution = setting.code_execution;
  };
}

-- `errorState.errors[key]` for both keys: `none` is the TypeError of errors that are `null`, and an
-- array has neither of the keys.
abbrev errors_of : ApiErrors → Option FieldErrors
errors_of absent = none
errors_of (messages ms) = some (record { name = none; email = none })
errors_of (fields fs) =
    some (record { name = field_value "name" fs; email = field_value "email" fs })

abbrev with_errors : SettingsPage → Option FieldErrors → Option SettingsPage
with_errors page none = none
with_errors page (some errors) = some (record page { field_errors = errors })

-- `onErrorStateChanged`; `none`: it throws.
unfoldable pub on_error_state_changed : Option ApiErrorState → SettingsPage → Option SettingsPage
on_error_state_changed none page =
    some (record page { field_errors = record { name = none; email = none } })
on_error_state_changed (some state) page = with_errors page (errors_of state.errors)

unfoldable pub on_language_changed : Language → SettingsPage → SettingsPage
on_language_changed language page = record page {
  setting_params = record page.setting_params { language = language };
}

-- The inputs and the boxes of the template
pub data SettingsInput : Type 0 where
  email_typed name_typed : String → SettingsInput
  private_checked execution_checked : Bool → SettingsInput
  language_selected : Language → SettingsInput

abbrev with_params : SettingsPage → SettingForm → SettingsPage
with_params page params = record page { setting_params = params }

unfoldable pub on_input : SettingsPage → SettingsInput → SettingsPage
unfolding on_language_changed
on_input page (email_typed email) = with_params page (record page.setting_params { email = email })
on_input page (name_typed name) = with_params page (record page.setting_params { name = name })
on_input page (private_checked b) =
    with_params page (record page.setting_params { pads_private = b })
on_input page (execution_checked b) =
    with_params page (record page.setting_params { code_execution = b })
on_input page (language_selected language) = on_language_changed language page

-- The setting that the page has; `none` before one came, when it is one without an id
abbrev pub setting_of : SettingForm → Option Setting
setting_of form = elim form.id [
  | none ↦ none
  | some id ↦ some (record {
    id = id;
    api_key = form.api_key;
    language = some form.language;
    pads_private = form.pads_private;
    email_subscription = form.email_subscription;
    code_execution = form.code_execution;
    email = form.email;
    name = form.name;
  })
]

abbrev save_actions : Option Setting → Option (List WebsiteAction)
save_actions none = none
save_actions (some setting) = some (
    WebsiteAction.common CommonAction.api_error_state_reset
    ∷ WebsiteAction.settings (SettingsAction.save setting)
    ∷ [])

-- `onSave`: the two actions that are dispatched, for a page to which a setting came
unfoldable pub on_save : SettingsPage → Option (List WebsiteAction)
on_save page = save_actions (setting_of page.setting_params)
