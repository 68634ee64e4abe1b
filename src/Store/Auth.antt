-- ===== src/Store/Auth.antt =====
-- The auth feature of the store (store/auth/store): models, actions, the two reducers, selectors.
pub mod Effects
pub mod SignIn
pub mod Answers
mod Tests
use editor_sh.Prelude.{
  ℕ, String, Bool, true, false, Option, none, some, or_else, List, [], ◌∷◌, str_eq, if◌then◌else◌,
}
use editor_sh.Store.Common.{
  Fields, ApiErrorMessage, ApiErrors, ApiErrorStateParams, absent, messages, fields,
}

pub record SessionParams : Type 0 where
  pub token : Option String
  pub scope : Option String
  pub expire : Option ℕ

pub record Session : Type 0 where
  pub token : String
  pub scope : String
  pub expire : ℕ

-- `new Session(params)`
pub new_session : SessionParams → Session
new_session p = record {
  token = or_else p.token "";
  scope = or_else p.scope "";
  expire = or_else p.expire 0;
}

pub record UserParams : Type 0 where
  pub id : Option ℕ
  pub name : Option String
  pub email : Option String

pub record User : Type 0 where
  pub id : ℕ
  pub name : String
  pub email : String

-- `new User(params)`
pub new_user : UserParams → User
new_user p = record { id = or_else p.id 0; name = or_else p.name ""; email = or_else p.email "" }

pub record Authentication : Type 0 where
  pub email : String
  pub password : String

pub record Registration : Type 0 where
  pub email : String
  pub name : String
  pub password : String
  pub email_subscription : Bool

pub record OauthLoginParams : Type 0 where
  pub platform : String
  pub code : String

pub record OauthUrlParams : Type 0 where
  pub platform : String
  pub authorize_url : String

pub data AuthAction : Type 0 where
  login : Authentication → AuthAction
  login_success : UserParams → SessionParams → AuthAction
  login_failure : ApiErrorStateParams → AuthAction
  login_redirect : AuthAction
  logout : AuthAction
  logout_success : AuthAction
  logout_failure : AuthAction
  register : Registration → AuthAction
  register_success : UserParams → SessionParams → AuthAction
  register_failure : ApiErrorStateParams → AuthAction
  refresh_token : AuthAction
  refresh_token_success : UserParams → SessionParams → AuthAction
  refresh_token_failure : ApiErrorStateParams → Option String → AuthAction
  load_token_success : SessionParams → AuthAction
  oauth_query_url : String → AuthAction
  oauth_query_url_success : OauthUrlParams → AuthAction
  oauth_query_url_failure : ApiErrorStateParams → AuthAction
  oauth_login : OauthLoginParams → AuthAction
  oauth_login_success : UserParams → SessionParams → AuthAction
  oauth_login_failure : ApiErrorStateParams → AuthAction

pub record LoginState : Type 0 where
  pub errors : ApiErrors
  pub message : String
  pub pending : Bool

abbrev pub initial_login_state : LoginState
initial_login_state = record { errors = absent; message = ""; pending = false }

unfoldable pub login_state_reducer : LoginState → AuthAction → LoginState
login_state_reducer state (login payload) = record state { pending = true }
login_state_reducer state (login_success user session) = initial_login_state
login_state_reducer state (login_failure payload) = record state {
  pending = false;
  errors = payload.errors;
}
login_state_reducer state (register payload) = record state { pending = true }
login_state_reducer state (register_success user session) = initial_login_state
login_state_reducer state (register_failure payload) = record state {
  pending = false;
  errors = payload.errors;
}
login_state_reducer state _ = state

pub record UserState : Type 0 where
  pub logged_in : Bool
  pub user : Option User
  pub session : Option Session

abbrev pub initial_user_state : UserState
initial_user_state = record { logged_in = false; user = none; session = none }

-- What the four actions of a success give to `state.with`.
abbrev signed_in : UserState → UserParams → SessionParams → UserState
signed_in state user session = record state {
  logged_in = true;
  user = some (new_user user);
  session = some (new_session session);
}

unfoldable pub user_state_reducer : UserState → AuthAction → UserState
unfolding new_user new_session
user_state_reducer state (load_token_success session) = record state {
  logged_in = true;
  session = some (new_session session);
}
user_state_reducer state logout_success = initial_user_state
user_state_reducer state (login_success user session) = signed_in state user session
user_state_reducer state (refresh_token_success user session) = signed_in state user session
user_state_reducer state (register_success user session) = signed_in state user session
user_state_reducer state (oauth_login_success user session) = signed_in state user session
user_state_reducer state _ = state

pub record AuthState : Type 0 where
  pub login_state : LoginState
  pub user_state : UserState

abbrev pub initial_auth_state : AuthState
initial_auth_state = record { login_state = initial_login_state; user_state = initial_user_state }

unfoldable pub auth_state_reducer : AuthState → AuthAction → AuthState
auth_state_reducer state action = record {
  login_state = login_state_reducer state.login_state action;
  user_state = user_state_reducer state.user_state action;
}

-- `msg.extensions[field]`, and whether it is truthy
extension : String → Fields → Option String
extension field [] = none
extension field ((key, value) ∷ rest) =
    if str_eq key field then some value else extension field rest

abbrev truthy : Option String → Option String
truthy none = none
truthy (some value) = if str_eq value "" then none else some value

unfoldable pub message_value : String → ApiErrorMessage → Option String
unfolding extension
message_value field msg = elim msg.extensions [
  | none ↦ none
  | some fs ↦ truthy (extension field fs)
]

-- The loop of `selectAuthLoginStateErrorsField`.
unfoldable pub first_value : String → List ApiErrorMessage → Option String
unfolding message_value
first_value field [] = none
first_value field (msg ∷ rest) =
    let later = first_value field rest in
    elim (message_value field msg) [ none ↦ later | some value ↦ some value ]

-- `none` stands for the result `false`. An object in place of the array has no `length`, so the
-- compiled loop makes no round.
unfoldable pub select_auth_login_state_errors_field : LoginState → String → Option String
unfolding first_value
select_auth_login_state_errors_field state field = elim state.errors [
  | absent ↦ none
  | messages msgs ↦ first_value field msgs
  | fields fs ↦ none
]
