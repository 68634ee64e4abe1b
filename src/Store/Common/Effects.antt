-- ===== src/Store/Common/Effects.antt =====
-- The effects of the common feature (store/common/store/common.effect.ts).
use editor_sh.Prelude.{String, Option, none, some, or_else, List, [], ◌∷◌, str_eq, if◌then◌else◌}
use editor_sh.Store.Common.{Fields, ApiErrors, absent, messages, fields, CommonAction}
use editor_sh.Store.Auth.{login_redirect}
use editor_sh.Store.Action.{WebsiteAction, Command}

-- `errors[key]` of an object
unfoldable pub field_value : String → Fields → Option String
field_value key [] = none
field_value key ((k, v) ∷ rest) = if str_eq k key then some v else field_value key rest

-- `none`: reading a field of `null` throws. An array has no field `detail`.
unfoldable pub make_error_message : ApiErrors → Option String
unfolding field_value
make_error_message absent = none
make_error_message (messages msgs) = some ""
make_error_message (fields fs) = some (or_else (field_value "detail" fs) "")

abbrev snack_bar_of : Option String → Command
snack_bar_of none = Command.crash
snack_bar_of (some message) = Command.dispatch (
    WebsiteAction.common
      (CommonAction.snack_bar_message (record { message = some message; action = none })))

unfoldable pub common_effects : CommonAction → List Command
unfolding make_error_message
common_effects (CommonAction.api_error_state payload) =
    snack_bar_of (make_error_message payload.errors) ∷ []
common_effects CommonAction.api_unauthorized_access =
    Command.destroy_token ∷ Command.dispatch (WebsiteAction.auth login_redirect) ∷ []
common_effects _ = []
