-- ===== src/Pages/Dashboard/SettingsPage/Tests.antt =====
-- The page of a setting whose language is not listed.
use editor_sh.Prelude.{true, false, none, some, List, [], ◌∷◌, ◌++◌, map, ◌≡◌, refl, foldl}
use editor_sh.Service.Api.{
  SettingBody, setting_save, HttpErrorResponse, ErrorBody, handle_unauthorized_error,
}
use editor_sh.Store.Common.{Fields, fields}
use editor_sh.Store.Common.Effects.{field_value}
use editor_sh.Store.Dashboard.Questions.Effects.{Dates}
use editor_sh.Store.Dashboard.Settings.Effects.{setting_of_item}
use editor_sh.Store.Action.{WebsiteAction, Command}
use editor_sh.Store.Website.{Website, finished, process}
use editor_sh.Store.Website.Session.{opened_page}
use editor_sh.Pages.Dashboard.SettingsPage.{
  SettingsPage, new_settings_page, SettingsInput, name_typed, private_checked,
  on_settings_state_changed, on_error_state_changed, on_input, on_save,
}
use editor_sh.Pages.Dashboard.SettingsPage.Saving.{
  edited, received, on_save-received, on_error_state_changed-refused,
}

abbrev dates : Dates
dates = record { to_utc_string = λ t. "then"; new_date = λ s. 0 }

abbrev site : Website
site = opened_page (record { accessible = true; full = false; item = none })

abbrev item : SettingBody
item = record {
  id = 9;
  api_key = "k";
  language = "cobol";
  pads_private = false;
  email_subscription = true;
  code_execution = true;
  email = "a@b.c";
  name = "n";
}

abbrev inputs : List SettingsInput
inputs = name_typed "m" ∷ private_checked true ∷ []

abbrev shown : SettingsPage
shown = on_settings_state_changed (some (setting_of_item item)) new_settings_page

on_save-received_example :
    (actions : List WebsiteAction) × (on_save (foldl on_input shown inputs) ≡ some actions)
    × (process 2 dates site actions
        ≡ finished (record site {
          common = record site.common { api_error_state = none };
          trail =
              site.trail
              ++ (Command.rest (setting_save (foldl edited (received item) inputs)) ∷ []);
        }))
on_save-received_example = on_save-received dates site item inputs new_settings_page 0

abbrev details : Fields
details = ("name", "too short") ∷ []

abbrev refusal : HttpErrorResponse
refusal = record {
  status = 422;
  ok = false;
  error = ErrorBody.body (record { errors = fields details });
}

on_error_state_changed-refused_example :
    (after : Website) × (process 2 dates site
        (map WebsiteAction.common (handle_unauthorized_error refusal))
      ≡ finished after)
    × (on_error_state_changed after.common.api_error_state shown
        ≡ some (record shown { field_errors = record { name = some "too short"; email = none } }))
unfolding field_value
on_error_state_changed-refused_example =
    on_error_state_changed-refused dates site refusal details shown 0 refl refl refl
