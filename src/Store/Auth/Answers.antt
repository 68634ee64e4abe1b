-- ===== src/Store/Auth/Answers.antt =====
-- The login page: what it waits for and which errors it shows, over the GraphQL service, the
-- effects, the reducer of the login state and the selector of the errors of a field.
use editor_sh.Prelude.{
  String, true, false, none, some, List, [], ◌∷◌, map, ◌≡◌, ◌↔◌, inl, inr, arith, Option-cases,
}
use editor_sh.Service.Graphql.{
  GraphqlError, Answer, reply, threw, apollo_error, http_error_response, type_error, GraphLogin,
  login_outcome, read_value, translate_error_response, Outcome,
}
use editor_sh.Store.Common.{ApiErrorMessage}
use editor_sh.Store.Auth.{
  Authentication, Registration, login, register, LoginState, login_state_reducer, message_value,
  first_value, select_auth_login_state_errors_field,
}
use editor_sh.Store.Auth.Effects.{login_answer, register_answer}

-- Whether the login page waits: it does from a login or a registration on, and no longer once the
-- service has answered, whatever the answer is.
pub login_state_reducer-pending :
    (auth : Authentication) (r : Registration) (answer : Outcome GraphLogin) (state : LoginState)
    → let signing_in = login_state_reducer state (login auth) in
      let signing_up = login_state_reducer state (register r) in
      (signing_in.pending ≡ true)
      × (signing_up.pending ≡ true)
      × ((login_state_reducer signing_in (login_answer answer)).pending ≡ false)
      × ((login_state_reducer signing_up (register_answer answer)).pending ≡ false)
unfolding login_state_reducer login_answer register_answer
login_state_reducer-pending auth r answer state = ground arith

-- The errors that reach the login page: those that the Apollo client throws.
abbrev pub thrown_errors : {A : Type 0} → Answer A → List GraphqlError
thrown_errors (threw (apollo_error errors)) = errors
thrown_errors _ = []

abbrev pub message_of : GraphqlError → ApiErrorMessage
message_of e = record { message = e.message; extensions = e.extensions }

-- The first text that one of the messages has for the field.
pub data IsFirst (field text : String) : List ApiErrorMessage → Type 0 where
  here :
      (msg : ApiErrorMessage) (rest : List ApiErrorMessage)
      → message_value field msg ≡ some text
      → IsFirst field text (msg ∷ rest)
  there :
      (msg : ApiErrorMessage) (rest : List ApiErrorMessage)
      → message_value field msg ≡ none
      → IsFirst field text rest
      → IsFirst field text (msg ∷ rest)

IsFirst-first_value :
    (field text : String) (msgs : List ApiErrorMessage)
    → IsFirst field text msgs
    → first_value field msgs ≡ some text
unfolding first_value
IsFirst-first_value field text _ (here msg rest e) = ground arith
IsFirst-first_value field text _ (there msg rest e h) =
    ground (arith, IsFirst-first_value field text rest h)

first_value-IsFirst :
    (field text : String) (msgs : List ApiErrorMessage)
    → first_value field msgs ≡ some text
    → IsFirst field text msgs
unfolding first_value
first_value-IsFirst field text [] e = cc
first_value-IsFirst field text (msg ∷ rest) e = elim (Option-cases (message_value field msg)) [
  | inl absent ↦ there msg rest absent (first_value-IsFirst field text rest (ground arith))
  | inr (v, found) ↦ here msg rest (ground arith)
]

no-IsFirst : {field text : String} → IsFirst field text [] → ⊥
no-IsFirst h = elim h [ ]

-- After the answer to a login, the page shows under a field exactly the first text that one of the
-- thrown errors has for it.
pub shown-login_answer :
    (field text : String) (answer : Answer GraphLogin) (state : LoginState)
    → (select_auth_login_state_errors_field
          (login_state_reducer state (login_answer (login_outcome answer)))
          field
        ≡ some text)
      ↔ IsFirst field text (map message_of (thrown_errors answer))
unfolding login_outcome read_value login_state_reducer login_answer translate_error_response
    select_auth_login_state_errors_field
shown-login_answer field text (threw (apollo_error errors)) state =
    (first_value-IsFirst field text _, IsFirst-first_value field text _)
shown-login_answer field text (threw (http_error_response errors)) state =
    (λ e. cc, λ h. absurd (no-IsFirst h))
shown-login_answer field text (threw type_error) state = (λ e. cc, λ h. absurd (no-IsFirst h))
shown-login_answer field text (reply r) state = elim (Option-cases r.value) [
  | inl e ↦ rw e (λ e. cc, λ h. absurd (no-IsFirst h))
  | inr (v, e) ↦ rw e (λ e. cc, λ h. absurd (no-IsFirst h))
]
