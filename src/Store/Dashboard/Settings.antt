-- ===== src/Store/Dashboard/Settings.antt =====
-- The settings (store/dashboard/stores/settings): model, actions, reducer.
pub mod Effects
pub mod Laws
use editor_sh.Prelude.{ℕ, String, Bool, Option, none, some}
use editor_sh.Models.Language.{Language}
use editor_sh.Store.Common.{ApiErrorStateParams}

pub record Setting : Type 0 where
  pub id : ℕ
  pub api_key : String
  pub language : Option Language
  pub pads_private : Bool
  pub email_subscription : Bool
  pub code_execution : Bool
  pub email : String
  pub name : String

pub data SettingsAction : Type 0 where
  query : SettingsAction
  query_success : Option Setting → SettingsAction
  query_failure : ApiErrorStateParams → SettingsAction
  save : Setting → SettingsAction
  save_success : Option Setting → SettingsAction
  save_failure : ApiErrorStateParams → SettingsAction
  refresh_api_key : SettingsAction
  refresh_api_key_success : String → SettingsAction
  refresh_api_key_failure : ApiErrorStateParams → SettingsAction

pub record SettingsState : Type 0 where
  pub setting : Option Setting

abbrev pub initial_settings_state : SettingsState
initial_settings_state = record { setting = none }

-- `state.setting.with({ api_key })`, where `none` is the TypeError of a setting that is `null`
with_api_key : Option Setting → String → Option SettingsState
with_api_key none api_key = none
with_api_key (some setting) api_key =
    some (record { setting = some (record setting { api_key = api_key }) })

-- `none`: the reducer throws.
unfoldable pub settings_state_reducer : SettingsState → SettingsAction → Option SettingsState
unfolding with_api_key
settings_state_reducer state (query_success setting) = some (record { setting = setting })
settings_state_reducer state (save_success setting) = some (record { setting = setting })
settings_state_reducer state (refresh_api_key_success api_key) = with_api_key state.setting api_key
settings_state_reducer state _ = some state
