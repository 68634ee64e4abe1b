-- ===== src/Store/Dashboard/Settings/Effects.antt =====
-- The effects of the settings (store/dashboard/stores/settings/settings.effect.ts).
use editor_sh.Prelude.{Option, none, some, List, [], ◌∷◌}
use editor_sh.Models.Language.{get_language_by_id}
use editor_sh.Service.Api.{SettingBody, setting_query, setting_save, setting_refresh_api_key}
use editor_sh.Store.Common.{CommonAction}
use editor_sh.Store.Dashboard.Settings.{
  Setting, SettingsAction, query, query_success, save, save_success, refresh_api_key,
}
use editor_sh.Store.Action.{WebsiteAction, Command}

-- The body of a save, where `none` is the TypeError of a setting without a language.
unfoldable pub save_body : Setting → Option SettingBody
save_body s = elim s.language [
  | none ↦ none
  | some language ↦ some (record {
    id = s.id;
    api_key = s.api_key;
    language = language.id;
    pads_private = s.pads_private;
    email_subscription = s.email_subscription;
    code_execution = s.code_execution;
    email = s.email;
    name = s.name;
  })
]

-- `new Setting({ ...data.setting, language })`
unfoldable pub setting_of_item : SettingBody → Setting
setting_of_item item = record {
  id = item.id;
  api_key = item.api_key;
  language = get_language_by_id item.language;
  pads_private = item.pads_private;
  email_subscription = item.email_subscription;
  code_execution = item.code_execution;
  email = item.email;
  name = item.name;
}

abbrev save_command : Option SettingBody → Command
save_command none = Command.crash
save_command (some body) = Command.rest (setting_save body)

unfoldable pub settings_effects : SettingsAction → List Command
unfolding save_body
settings_effects query = Command.rest setting_query ∷ []
settings_effects (save setting) = save_command (save_body setting) ∷ []
settings_effects refresh_api_key = Command.rest setting_refresh_api_key ∷ []
settings_effects _ = []

unfoldable pub query_answer : SettingBody → SettingsAction
query_answer item = query_success (some (setting_of_item item))

-- `save$` dispatches a message of its own before the result.
unfoldable pub save_answer : SettingBody → List Command
save_answer item =
    Command.dispatch (
      WebsiteAction.common
        (CommonAction.snack_bar_message (record { message = some "Save Success!"; action = none })))
    ∷ Command.dispatch (WebsiteAction.settings (save_success (some (setting_of_item item))))
    ∷ []
