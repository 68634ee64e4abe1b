-- ===== src/Store/Auth/Tests.antt =====
-- Inputs for the properties of the auth feature.
use editor_sh.Prelude.{true, false, none, some, List, [], ◌∷◌, ◌≡◌, refl, inl, ◌↔◌, foldl, map}
use editor_sh.Service.Jwt.{get_token}
use editor_sh.Service.Graphql.{
  Answer, threw, apollo_error, GraphLogin, user_of, session_of, login_outcome,
}
use editor_sh.Store.Auth.{
  AuthAction, login, login_success, logout, logout_success, Authentication, Registration, register,
  login_state_reducer, select_auth_login_state_errors_field, initial_login_state,
  initial_user_state, initial_auth_state, auth_state_reducer,
}
use editor_sh.Store.Auth.Effects.{login_answer}
use editor_sh.Store.Auth.SignIn.{
  IsCoherent, auth_state_reducer-IsCoherent, Signed, sign, IsSynced, foldl-sign-IsSynced,
}
use editor_sh.Store.Auth.Answers.{message_of, IsFirst, shown-login_answer, thrown_errors}

abbrev account : GraphLogin
account = record { token = "t1"; id = 7; email = "a@b.c"; name = "A" }

abbrev signing_in : Authentication
signing_in = record { email = "a@b.c"; password = "secret" }

abbrev signing_up : Registration
signing_up = record { email = "a@b.c"; name = "A"; password = "x"; email_subscription = false }

abbrev visit : List AuthAction
visit =
    login signing_in
    ∷ login_success (user_of account) (session_of account)
    ∷ logout
    ∷ logout_success
    ∷ register signing_up
    ∷ login_success (user_of account) (session_of account)
    ∷ []

abbrev fresh : Signed
fresh = (
  initial_user_state,
  record {
    local_token = some "";
    storage = record { accessible = true; full = false; item = none };
  },
)

abbrev refused : Answer GraphLogin
refused = threw (
    apollo_error (
      (record { message = "no"; extensions = none })
      ∷ (record { message = "bad"; extensions = some (("email", "unknown") ∷ []) })
      ∷ []))

auth_state_reducer-IsCoherent_example :
    IsCoherent (foldl auth_state_reducer initial_auth_state visit).user_state
auth_state_reducer-IsCoherent_example = auth_state_reducer-IsCoherent visit

fresh-IsSynced : IsSynced fresh
unfolding get_token
fresh-IsSynced = record { token = refl; writable = inl refl }

foldl-sign-IsSynced_example : IsSynced (foldl sign fresh visit)
foldl-sign-IsSynced_example =
    foldl-sign-IsSynced visit fresh (refl, (refl, (refl, (refl, (refl, (refl, tt))))))
      fresh-IsSynced

abbrev signed : Signed
signed = sign fresh (login_success (user_of account) (session_of account))

shown-login_answer_example :
    (select_auth_login_state_errors_field
        (login_state_reducer initial_login_state (login_answer (login_outcome refused)))
        "email"
      ≡ some "unknown")
    ↔ IsFirst "email" "unknown" (map message_of (thrown_errors refused))
shown-login_answer_example = shown-login_answer "email" "unknown" refused initial_login_state
