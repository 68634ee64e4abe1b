-- ===== src/Store/Dashboard/Settings/Laws.antt =====
-- The settings over a sequence of answers, and the saving of a setting.
use editor_sh.Prelude.{
  Bool, true, Option, none, some, List, [], ◌∷◌, ◌≡◌, refl, arith, is_some, All,
}
use editor_sh.Prelude.Members.{Elem}
use editor_sh.Models.Language.{Language, language_list}
use editor_sh.Models.Language.Lookup.{get_language_by_id-listed}
use editor_sh.Service.Api.{SettingBody}
use editor_sh.Store.Dashboard.Settings.{
  Setting, SettingsAction, query_success, save_success, refresh_api_key_success, SettingsState,
  settings_state_reducer,
}
use editor_sh.Store.Dashboard.Settings.Effects.{setting_of_item, save_body}

-- The reducer on actions in their order; it stops where it throws.
abbrev pub reduce_all : SettingsState → List SettingsAction → Option SettingsState
reduce_all state [] = some state
reduce_all state (a ∷ later) = elim (settings_state_reducer state a) [
  | none ↦ none
  | some after ↦ reduce_all after later
]

-- Every action but a success of the server with no setting.
abbrev pub has_setting : SettingsAction → Bool
has_setting (query_success setting) = is_some setting
has_setting (save_success setting) = is_some setting
has_setting _ = true

settings_state_reducer-some :
    (a : SettingsAction) (s : Setting)
    → has_setting a ≡ true
    → (s' : Setting) × (settings_state_reducer (record { setting = some s }) a
        ≡ some (record { setting = some s' }))
unfolding settings_state_reducer
settings_state_reducer-some (query_success (some s')) s h = (s', refl)
settings_state_reducer-some (query_success none) s h = cc
settings_state_reducer-some (save_success (some s')) s h = (s', refl)
settings_state_reducer-some (save_success none) s h = cc
settings_state_reducer-some (refresh_api_key_success key) s h = (record s { api_key = key }, refl)
settings_state_reducer-some _ s h = (s, refl)

-- Once there is a setting, the reducer never throws and there always is one, whatever actions
-- come, if each success of the server has a setting.
pub reduce_all-some :
    (actions : List SettingsAction) (s : Setting)
    → All (λ a. has_setting a ≡ true) actions
    → (s' : Setting) × (reduce_all (record { setting = some s }) actions
        ≡ some (record { setting = some s' }))
reduce_all-some [] s h = (s, refl)
reduce_all-some (a ∷ later) s h =
    let (s', e) = settings_state_reducer-some a s h.0 in
    let (s'', e') = reduce_all-some later s' h.1 in (s'', rw (reduce_all, e) e')

-- A setting with a language of the list comes back as it was from a server that answers with what
-- it was sent; and without its language it cannot be saved, as the effect throws.
pub setting_of_item-save_body :
    (s : Setting) (l : Language)
    → s.language ≡ some l
    → Elem l language_list
    → ((item : SettingBody) × (save_body s ≡ some item) × (setting_of_item item ≡ s))
      × (save_body (record s { language = none }) ≡ none)
unfolding save_body setting_of_item
setting_of_item-save_body s l e listed =
    let item : SettingBody = record {
      id = s.id;
      api_key = s.api_key;
      language = l.id;
      pads_private = s.pads_private;
      email_subscription = s.email_subscription;
      code_execution = s.code_execution;
      email = s.email;
      name = s.name;
    } in
    ((item, rw e refl, ground (arith, get_language_by_id-listed l listed)), refl)
