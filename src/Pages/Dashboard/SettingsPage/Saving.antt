-- ===== src/Pages/Dashboard/SettingsPage/Saving.antt =====
-- A save from the page of the settings, and its refusal.
use editor_sh.Prelude.{
  ℕ, suc, String, false, ◌==◌, Option, none, some, or_else, List, [], ◌∷◌, ◌++◌, map, foldl, ◌≡◌,
  refl, ap,
}
use editor_sh.Models.Language.{Language, get_language_by_id}
use editor_sh.Service.Api.{
  SettingBody, setting_save, HttpErrorResponse, state_params, handle_unauthorized_error,
}
use editor_sh.Store.Common.{CommonAction, Fields, fields, common_state_reducer}
use editor_sh.Store.Common.Effects.{common_effects, field_value, make_error_message}
use editor_sh.Store.Dashboard.Questions.Effects.{Dates}
use editor_sh.Store.Dashboard.Settings.{Setting, SettingsAction, settings_state_reducer}
use editor_sh.Store.Dashboard.Settings.Effects.{save_body, setting_of_item, settings_effects}
use editor_sh.Store.Action.{WebsiteAction, Command}
use editor_sh.Store.Website.{Website, reduce, effects, perform, finished, process}
use editor_sh.Pages.Dashboard.SettingsPage.{
  SettingForm, SettingsPage, typescript, on_settings_state_changed, on_error_state_changed,
  SettingsInput, email_typed, name_typed, private_checked, execution_checked, language_selected,
  on_input, on_language_changed, setting_of, on_save,
}

-- What the user's input makes of a body of the server: an independent description, in which the
-- language is an id, and one that is not listed is TypeScript.
abbrev pub edited : SettingBody → SettingsInput → SettingBody
edited item (email_typed email) = record item { email = email }
edited item (name_typed name) = record item { name = name }
edited item (private_checked b) = record item { pads_private = b }
edited item (execution_checked b) = record item { code_execution = b }
edited item (language_selected language) = record item { language = language.id }

abbrev pub listed_id : Option Language → String
listed_id none = "typescript"
listed_id (some l) = l.id

abbrev pub received : SettingBody → SettingBody
received item = record item { language = listed_id (get_language_by_id item.language) }

-- The page has this body.
record Has (page : SettingsPage) (item : SettingBody) : Type 0 where
  has_id : page.setting_params.id ≡ some item.id
  has_rest :
      record {
        id = item.id;
        api_key = page.setting_params.api_key;
        language = page.setting_params.language.id;
        pads_private = page.setting_params.pads_private;
        email_subscription = page.setting_params.email_subscription;
        code_execution = page.setting_params.code_execution;
        email = page.setting_params.email;
        name = page.setting_params.name;
      }
      ≡ item

input-Has :
    (input : SettingsInput) (page : SettingsPage) (item : SettingBody)
    → Has page item
    → Has (on_input page input) (edited item input)
unfolding on_input on_language_changed
input-Has (email_typed email) page item h = record {
  has_id = h.has_id;
  has_rest = ap (λ i. edited i (email_typed email)) h.has_rest;
}
input-Has (name_typed name) page item h = record {
  has_id = h.has_id;
  has_rest = ap (λ i. edited i (name_typed name)) h.has_rest;
}
input-Has (private_checked b) page item h = record {
  has_id = h.has_id;
  has_rest = ap (λ i. edited i (private_checked b)) h.has_rest;
}
input-Has (execution_checked b) page item h = record {
  has_id = h.has_id;
  has_rest = ap (λ i. edited i (execution_checked b)) h.has_rest;
}
input-Has (language_selected l) page item h = record {
  has_id = h.has_id;
  has_rest = ap (λ i. edited i (language_selected l)) h.has_rest;
}

foldl-Has :
    (inputs : List SettingsInput) (page : SettingsPage) (item : SettingBody)
    → Has page item
    → Has (foldl on_input page inputs) (foldl edited item inputs)
foldl-Has [] page item h = h
foldl-Has (input ∷ later) page item h =
    foldl-Has later (on_input page input) (edited item input) (input-Has input page item h)

shown_id : (o : Option Language) → (or_else o typescript).id ≡ listed_id o
shown_id none = refl
shown_id (some l) = refl

received-Has :
    (item : SettingBody) (page : SettingsPage)
    → Has (on_settings_state_changed (some (setting_of_item item)) page) (received item)
unfolding on_settings_state_changed setting_of_item
received-Has item page = record {
  has_id = refl;
  has_rest =
      ap (λ (id : String). record item { language = id })
        (shown_id (get_language_by_id item.language));
}

setting_with : ℕ → SettingForm → Setting
setting_with id form = record {
  id = id;
  api_key = form.api_key;
  language = some form.language;
  pads_private = form.pads_private;
  email_subscription = form.email_subscription;
  code_execution = form.code_execution;
  email = form.email;
  name = form.name;
}

setting_found :
    (form : SettingForm) (id : ℕ)
    → form.id ≡ some id
    → setting_of form ≡ some (setting_with id form)
unfolding setting_with
setting_found form id e = rw (setting_of, e) refl

saved : (w : Website) (body : SettingBody) → Website
saved w body = record w {
  common = record w.common { api_error_state = none };
  trail = w.trail ++ (Command.rest (setting_save body) ∷ []);
}

sent :
    (dates : Dates) (w : Website) (page : SettingsPage) (body : SettingBody) (fuel : ℕ)
    → Has page body
    → (actions : List WebsiteAction) × (on_save page ≡ some actions)
      × (process (suc (suc fuel)) dates w actions ≡ finished (saved w body))
unfolding on_save saved process reduce effects perform common_effects common_state_reducer
    settings_effects settings_state_reducer save_body setting_with
sent dates w page body fuel h =
    let setting = setting_with body.id page.setting_params in
    (
      WebsiteAction.common CommonAction.api_error_state_reset
          ∷ WebsiteAction.settings (SettingsAction.save setting)
          ∷ [],
      rw (setting_found page.setting_params body.id h.has_id) refl,
      ap (λ b. finished (saved w b)) h.has_rest,
    )

-- On a page to which the answer of the server came, whatever the user changes and the store did: a
-- save finishes without an exception, takes back the errors and sends one PUT, whose body is that of
-- the answer with the changes of the user. A language that is not listed has become TypeScript in it,
-- also if the user changed nothing.
pub on_save-received :
    (dates : Dates) (w : Website) (item : SettingBody) (inputs : List SettingsInput)
    (page : SettingsPage) (fuel : ℕ)
    → let shown = on_settings_state_changed (some (setting_of_item item)) page in
      (actions : List WebsiteAction) × (on_save (foldl on_input shown inputs) ≡ some actions)
      × (process (suc (suc fuel)) dates w actions
          ≡ finished (record w {
            common = record w.common { api_error_state = none };
            trail =
                w.trail ++ (Command.rest (setting_save (foldl edited (received item) inputs)) ∷ []);
          }))
unfolding saved
on_save-received dates w item inputs page fuel =
    let shown = on_settings_state_changed (some (setting_of_item item)) page in
    sent dates w (foldl on_input shown inputs) (foldl edited (received item) inputs) fuel
      (foldl-Has inputs shown (received item) (received-Has item page))

-- After a response other than a 401 with errors by their fields, the cascade finishes, and the page
-- shows the errors for the name and the email, and for a field without one none.
pub on_error_state_changed-refused :
    (dates : Dates) (w : Website) (resp : HttpErrorResponse) (fs : Fields) (page : SettingsPage)
    (fuel : ℕ)
    → (resp.status == 401) ≡ false
    → resp.ok ≡ false
    → state_params resp.error ≡ record { errors = fields fs }
    → (after : Website) × (process
          (suc (suc fuel))
          dates
          w
          (map WebsiteAction.common (handle_unauthorized_error resp))
        ≡ finished after)
      × (on_error_state_changed after.common.api_error_state page
          ≡ some (record page {
            field_errors = record { name = field_value "name" fs; email = field_value "email" fs };
          }))
unfolding process reduce effects perform handle_unauthorized_error common_effects make_error_message
    common_state_reducer on_error_state_changed
on_error_state_changed-refused dates w resp fs page fuel s o e = rw (s, o, e) (_, refl, refl)
