-- ===== src/Store/Website.antt =====
-- The store of the website with the effects of all its features, but for the codepad: actions are
-- handled in the order of their dispatch, each by the reducers and then by the effects, whose own
-- dispatches wait until it is done (store/*, as the modules of the features put them together).
pub mod Cascade
pub mod Expiry
pub mod Session
mod Tests
use editor_sh.Prelude.{ℕ, zero, suc, Bool, true, false, Option, none, some, List, [], ◌∷◌, ◌++◌}
use editor_sh.Service.Jwt.{JwtService, save_token, destroy_token}
use editor_sh.Store.Common.{CommonState, common_state_reducer}
use editor_sh.Store.Common.Effects.{common_effects}
use editor_sh.Store.Auth.{AuthState, auth_state_reducer}
use editor_sh.Store.Auth.Effects.{auth_effects}
use editor_sh.Store.Dashboard.Questions.{QuestionsState, questions_state_reducer}
use editor_sh.Store.Dashboard.Questions.Effects.{Dates, questions_effects}
use editor_sh.Store.Dashboard.Databases.{DatabasesState, databases_state_reducer}
use editor_sh.Store.Dashboard.Databases.Effects.{databases_effects}
use editor_sh.Store.Dashboard.Pads.{PadsState, pads_state_reducer}
use editor_sh.Store.Dashboard.Pads.Effects.{pads_effects}
use editor_sh.Store.Dashboard.Settings.{SettingsState, settings_state_reducer}
use editor_sh.Store.Dashboard.Settings.Effects.{settings_effects}
use editor_sh.Store.Action.{WebsiteAction, Command}

-- The state of the features, the token store, and what went out so far: the pages that were
-- opened and the calls that were made.
pub record Website : Type 0 where
  pub common : CommonState
  pub auth : AuthState
  pub questions : QuestionsState
  pub databases : DatabasesState
  pub pads : PadsState
  pub settings : SettingsState
  pub jwt : JwtService
  pub trail : List Command

abbrev with_questions : Website → Option QuestionsState → Option Website
with_questions w none = none
with_questions w (some s) = some (record w { questions = s })

abbrev with_settings : Website → Option SettingsState → Option Website
with_settings w none = none
with_settings w (some s) = some (record w { settings = s })

-- The reducers, each for the actions of its own feature; `none` where one throws.
unfoldable pub reduce : Website → WebsiteAction → Option Website
reduce w (WebsiteAction.common a) = some (record w { common = common_state_reducer w.common a })
reduce w (WebsiteAction.auth a) = some (record w { auth = auth_state_reducer w.auth a })
reduce w (WebsiteAction.questions a) = with_questions w (questions_state_reducer w.questions a)
reduce w (WebsiteAction.databases a) =
    some (record w { databases = databases_state_reducer w.databases a })
reduce w (WebsiteAction.pads a) = some (record w { pads = pads_state_reducer w.pads a })
reduce w (WebsiteAction.settings a) = with_settings w (settings_state_reducer w.settings a)

-- The effects, which see the state after the reducers.
unfoldable pub effects : Dates → Website → WebsiteAction → List Command
effects dates w (WebsiteAction.common a) = common_effects a
effects dates w (WebsiteAction.auth a) = auth_effects w.jwt a
effects dates w (WebsiteAction.questions a) = questions_effects dates a
effects dates w (WebsiteAction.databases a) = databases_effects a
effects dates w (WebsiteAction.pads a) = pads_effects w.pads a
effects dates w (WebsiteAction.settings a) = settings_effects a

-- The commands of the effects, done in order: the website, what they dispatch, and whether one
-- of them is an exception, after which none is done.
pub data Performed : Type 0 where
  done : Website → List WebsiteAction → Performed
  crashed : Website → Performed

abbrev also_dispatch : WebsiteAction → Performed → Performed
also_dispatch a (done w later) = done w (a ∷ later)
also_dispatch a (crashed w) = crashed w

unfoldable pub perform : List Command → Website → Performed
perform [] w = done w []
perform (Command.dispatch a ∷ rest) w = also_dispatch a (perform rest w)
perform (Command.save_token token ∷ rest) w =
    perform rest (record w { jwt = save_token token w.jwt })
perform (Command.destroy_token ∷ rest) w = perform rest (record w { jwt = destroy_token w.jwt })
perform (Command.crash ∷ rest) w = crashed w
perform (out ∷ rest) w = perform rest (record w { trail = w.trail ++ (out ∷ []) })

pub data Result : Type 0 where
  finished threw : Website → Result
  out_of_fuel : Result

-- One action, after the reducers and whole.
abbrev pub after_reduce : Dates → Website → WebsiteAction → Option Website → Performed
after_reduce dates w a none = crashed w
after_reduce dates w a (some after) = perform (effects dates after a) after

abbrev pub handle : Dates → Website → WebsiteAction → Performed
handle dates w a = after_reduce dates w a (reduce w a)

-- The queue of dispatched actions, on fuel.
unfoldable pub process : ℕ → Dates → Website → List WebsiteAction → Result
process fuel dates w [] = finished w
process zero dates w (a ∷ queue) = out_of_fuel
process (suc fuel) dates w (a ∷ queue) = elim (handle dates w a) [
  | crashed after ↦ threw after
  | done after later ↦ process fuel dates after (queue ++ later)
]
