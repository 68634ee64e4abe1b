-- ===== src/Store/Auth/Effects.antt =====
-- The effects and the guard of the auth feature (store/auth/store/auth.effect.ts, auth.guard.ts):
-- the commands for each action, and the action that each answer of the service becomes.
use editor_sh.Prelude.{Bool, true, false, none, some, List, [], ◌∷◌, if◌then◌else◌}
use editor_sh.Service.Jwt.{JwtService, get_token, has_token}
use editor_sh.Service.Api.{UrlPath, word}
use editor_sh.Service.Graphql.{
  GraphqlCall, GraphLogin, Outcome, completed, failed, errors_of, user_of, session_of, login_call,
  register_call, oauth_login_call,
}
use editor_sh.Store.Common.{absent}
use editor_sh.Store.Auth.{
  AuthAction, login, login_success, login_failure, login_redirect, logout, logout_success, register,
  register_success, register_failure, refresh_token, refresh_token_success, refresh_token_failure,
  load_token_success, oauth_query_url, oauth_query_url_success, oauth_login, oauth_login_success,
  oauth_login_failure, OauthUrlParams, UserState,
}
use editor_sh.Store.Action.{WebsiteAction, Command}

abbrev dispatch_auth : AuthAction → Command
dispatch_auth a = Command.dispatch (WebsiteAction.auth a)

abbrev pub to_dashboard : UrlPath
to_dashboard = word "/dashboard" ∷ []

abbrev pub to_login : UrlPath
to_login = word "/account/login" ∷ []

abbrev pub to_home : UrlPath
to_home = word "/" ∷ []

-- `initAction$`, when the page loads
unfoldable pub init_effect : JwtService → List Command
init_effect j =
    if has_token j
    then dispatch_auth
        (load_token_success (record { token = some (get_token j); scope = none; expire = none }))
      ∷ []
    else []

-- `userSessionRefresh` is not implemented and gives `null`, whose `map` cannot be called.
unfoldable pub auth_effects : JwtService → AuthAction → List Command
unfolding login_call register_call oauth_login_call
auth_effects j refresh_token =
    if has_token j
    then Command.crash ∷ []
    else dispatch_auth (refresh_token_failure (record { errors = absent }) none) ∷ []
auth_effects j (refresh_token_success user session) = Command.save_token session.token ∷ []
auth_effects j (refresh_token_failure payload redirect) = Command.destroy_token ∷ []
auth_effects j (login payload) = Command.graphql (login_call payload) ∷ []
auth_effects j (login_success user session) =
    Command.save_token session.token ∷ Command.navigate to_dashboard ∷ []
auth_effects j login_redirect = Command.navigate to_login ∷ []
auth_effects j logout = Command.graphql GraphqlCall.user_logout ∷ []
auth_effects j logout_success = Command.destroy_token ∷ Command.navigate to_home ∷ []
auth_effects j (register payload) = Command.graphql (register_call payload) ∷ []
auth_effects j (register_success user session) =
    Command.save_token session.token ∷ Command.navigate to_dashboard ∷ []
auth_effects j (oauth_query_url platform) =
    Command.graphql (GraphqlCall.user_oauth_query_url platform) ∷ []
auth_effects j (oauth_query_url_success params) = Command.location_href params.authorize_url ∷ []
auth_effects j (oauth_login payload) = Command.graphql (oauth_login_call payload) ∷ []
auth_effects j (oauth_login_success user session) =
    Command.save_token session.token ∷ Command.navigate to_dashboard ∷ []
auth_effects j _ = []

-- What `login$` dispatches when the service has answered.
unfoldable pub login_answer : Outcome GraphLogin → AuthAction
login_answer (completed data') = login_success (user_of data') (session_of data')
login_answer (failed err) = login_failure (record { errors = errors_of err })

-- `register$`
unfoldable pub register_answer : Outcome GraphLogin → AuthAction
register_answer (completed data') = register_success (user_of data') (session_of data')
register_answer (failed err) = register_failure (record { errors = errors_of err })

-- `logout$`: the answer does not matter.
unfoldable pub logout_answer : Outcome (Unit {0}) → AuthAction
logout_answer (completed _) = logout_success
logout_answer (failed _) = logout_success

-- `oauthQueryUrl$`: its failure is reported by the action of a failed login.
unfoldable pub oauth_query_url_answer : Outcome OauthUrlParams → AuthAction
oauth_query_url_answer (completed data') = oauth_query_url_success data'
oauth_query_url_answer (failed err) = oauth_login_failure (record { errors = errors_of err })

-- `oauthLogin$`
unfoldable pub oauth_login_answer : Outcome GraphLogin → AuthAction
oauth_login_answer (completed data') = oauth_login_success (user_of data') (session_of data')
oauth_login_answer (failed err) = oauth_login_failure (record { errors = errors_of err })

-- `AuthGuard.canActivate`: the answer, and what is dispatched
unfoldable pub can_activate : UserState → Bool × List Command
can_activate state =
    if state.logged_in then (true, []) else (false, dispatch_auth login_redirect ∷ [])
