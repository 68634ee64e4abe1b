-- ===== src/Store/Auth/SignIn.antt =====
-- The user of the auth feature and the token store: what agrees with what after any actions.
use editor_sh.Prelude.{
  String, Bool, true, false, Option, none, some, List, [], ◌∷◌, foldl, ◌≡◌, refl, ◌⊎◌, inl, inr,
  is_some, arith, All,
}
use editor_sh.Service.Jwt.{JwtService, get_token, save_token, destroy_token}
use editor_sh.Service.Graphql.{Outcome}
use editor_sh.Store.Auth.{
  AuthAction, login_success, logout_success, register_success, refresh_token_success,
  refresh_token_failure, load_token_success, oauth_login_success, UserState, initial_user_state,
  user_state_reducer, new_session, AuthState, initial_auth_state, auth_state_reducer,
}
use editor_sh.Store.Auth.Effects.{auth_effects, logout_answer}
use editor_sh.Store.Action.{Command}

-- The user is logged in exactly with a session, and a known user is logged in.
pub record IsCoherent (state : UserState) : Type 0 where
  pub session_known : is_some state.session ≡ state.logged_in
  pub user_known : (state.user ≡ none) ⊎ (state.logged_in ≡ true)

user_state_reducer-IsCoherent :
    (state : UserState) (a : AuthAction)
    → IsCoherent state
    → IsCoherent (user_state_reducer state a)
unfolding user_state_reducer
user_state_reducer-IsCoherent state (login_success u s) c = record {
  session_known = refl;
  user_known = inr refl;
}
user_state_reducer-IsCoherent state (register_success u s) c = record {
  session_known = refl;
  user_known = inr refl;
}
user_state_reducer-IsCoherent state (refresh_token_success u s) c = record {
  session_known = refl;
  user_known = inr refl;
}
user_state_reducer-IsCoherent state (oauth_login_success u s) c = record {
  session_known = refl;
  user_known = inr refl;
}
user_state_reducer-IsCoherent state (load_token_success s) c = record {
  session_known = refl;
  user_known = inr refl;
}
user_state_reducer-IsCoherent state logout_success c = record {
  session_known = refl;
  user_known = inl refl;
}
user_state_reducer-IsCoherent state _ c = c

foldl-IsCoherent :
    (actions : List AuthAction) (state : AuthState)
    → IsCoherent state.user_state
    → IsCoherent (foldl auth_state_reducer state actions).user_state
unfolding auth_state_reducer
foldl-IsCoherent [] state c = c
foldl-IsCoherent (a ∷ later) state c =
    foldl-IsCoherent later (auth_state_reducer state a)
      (user_state_reducer-IsCoherent state.user_state a c)

-- After any actions from the first state on, the user is logged in exactly if there is a session,
-- and there is no user who is not logged in.
pub auth_state_reducer-IsCoherent :
    (actions : List AuthAction)
    → IsCoherent (foldl auth_state_reducer initial_auth_state actions).user_state
auth_state_reducer-IsCoherent actions =
    foldl-IsCoherent actions initial_auth_state
      (record { session_known = refl; user_known = inl refl })

-- What the commands of an effect do to the token store, in order.
abbrev pub keep_token : JwtService → Command → JwtService
keep_token j (Command.save_token token) = save_token token j
keep_token j Command.destroy_token = destroy_token j
keep_token j _ = j

abbrev pub keep_tokens : JwtService → List Command → JwtService
keep_tokens j commands = foldl keep_token j commands

-- The reducer and the token store side by side.
abbrev pub Signed : Type 0
Signed = UserState × JwtService

abbrev pub sign : Signed → AuthAction → Signed
sign (state, j) a = (user_state_reducer state a, keep_tokens j (auth_effects j a))

abbrev session_token : UserState → String
session_token state = elim state.session [ none ↦ "" | some s ↦ s.token ]

-- The token store gives the token of the session, or the empty text without one; and the browser
-- takes what is written.
pub record IsSynced (w : Signed) : Type 0 where
  pub token : get_token w.1 ≡ session_token w.0
  pub writable : (w.1.storage.full ≡ false) ⊎ (w.1.storage.accessible ≡ false)

abbrev has_text : Option String → Bool
has_text x = is_some x

-- Every action of the auth feature but three kinds: the failure of a refresh, a token that is loaded, and a success
-- whose session has no token.
abbrev pub keeps_pace : AuthAction → Bool
keeps_pace (refresh_token_failure errors redirect) = false
keeps_pace (load_token_success session) = false
keeps_pace (login_success user session) = has_text session.token
keeps_pace (register_success user session) = has_text session.token
keeps_pace (refresh_token_success user session) = has_text session.token
keeps_pace (oauth_login_success user session) = has_text session.token
keeps_pace _ = true

sign-IsSynced :
    (a : AuthAction) (state : UserState) (j : JwtService)
    → keeps_pace a ≡ true
    → IsSynced (state, j)
    → IsSynced (sign (state, j) a)
unfolding user_state_reducer auth_effects new_session get_token save_token destroy_token
sign-IsSynced (refresh_token_failure errors redirect) state j k c = cc
sign-IsSynced (load_token_success session) state j k c = cc
sign-IsSynced (login_success user session) state j k c = ground arith
sign-IsSynced (register_success user session) state j k c = ground arith
sign-IsSynced (refresh_token_success user session) state j k c = ground arith
sign-IsSynced (oauth_login_success user session) state j k c = ground arith
sign-IsSynced _ state j k c = ground arith

-- From a state in step on, any actions of the auth feature, other than the failure of a refresh, a
-- token that is loaded and a success whose session has no token, leave the token store with the token
-- of the session, or without a token where there is no session. Actions of the other features are not
-- among them: the one for a 401 destroys the token and keeps the session.
pub foldl-sign-IsSynced :
    (actions : List AuthAction) (w : Signed)
    → All (λ a. keeps_pace a ≡ true) actions
    → IsSynced w
    → IsSynced (foldl sign w actions)
foldl-sign-IsSynced [] w k c = c
foldl-sign-IsSynced (a ∷ later) (state, j) k c =
    foldl-sign-IsSynced later (sign (state, j) a) k.1 (sign-IsSynced a state j k.0 c)

-- Whatever the service answers to a logout, nobody is logged in, there is neither a user nor a
-- session, and no token is kept.
pub sign-logout_answer :
    (answer : Outcome (Unit {0})) (w : Signed)
    → ((sign w (logout_answer answer)).0 ≡ initial_user_state)
      × (get_token (sign w (logout_answer answer)).1 ≡ "")
unfolding logout_answer user_state_reducer auth_effects get_token destroy_token
sign-logout_answer answer (state, j) = ground arith
