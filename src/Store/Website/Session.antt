-- ===== src/Store/Website/Session.antt =====
-- A session from the reply to a login on, through the store, the token store and the headers of the
-- requests, and over a reload of the page.
use editor_sh.Prelude.{
  String, ◌+++◌, str_eq, eq_iff, Bool-cases, inl, inr, ℕ, true, false, none, some, Option, List, [],
  ◌∷◌, ◌++◌, ◌≡◌, ◌≢◌, ◌⊎◌, ◌∙◌, if◌then◌else◌, refl, suc, arith,
}
use editor_sh.Service.Jwt.{JwtService, Storage, get_token, save_token, has_token}
use editor_sh.Service.Jwt.Laws.{get_token-save_token}
use editor_sh.Service.Api.{authorization}
use editor_sh.Service.Graphql.{
  GraphLogin, GraphqlError, auth_link, reply, user_of, session_of, read_value, login_outcome,
}
use editor_sh.Store.Common.{initial_common_state}
use editor_sh.Store.Auth.{
  initial_login_state, initial_auth_state, load_token_success, new_user, new_session,
  auth_state_reducer, login_state_reducer, user_state_reducer,
}
use editor_sh.Store.Auth.Effects.{
  auth_effects, login_answer, init_effect, to_dashboard, can_activate,
}
use editor_sh.Store.Dashboard.Questions.{initial_questions_state}
use editor_sh.Store.Dashboard.Questions.Effects.{Dates}
use editor_sh.Store.Dashboard.Databases.{initial_databases_state}
use editor_sh.Store.Dashboard.Pads.{initial_pads_state}
use editor_sh.Store.Dashboard.Settings.{initial_settings_state}
use editor_sh.Store.Action.{WebsiteAction, Command}
use editor_sh.Store.Website.{
  Website, Result, reduce, effects, perform, crashed, done, finished, threw, process,
}

-- What the website is after a login that the server answered with `res`.
abbrev pub after_login : GraphLogin → Website → Website
after_login res w = record w {
  auth = record {
    login_state = initial_login_state;
    user_state = record {
      logged_in = true;
      user = some (new_user (user_of res));
      session = some (new_session (session_of res));
    };
  };
  jwt = save_token (some res.token) w.jwt;
  trail = w.trail ++ (Command.navigate to_dashboard ∷ []);
}

-- A page that was just opened, with what the browser's storage holds.
abbrev pub opened_page : Storage → Website
opened_page storage = record {
  common = initial_common_state;
  auth = initial_auth_state;
  questions = initial_questions_state;
  databases = initial_databases_state;
  pads = initial_pads_state;
  settings = initial_settings_state;
  jwt = record { local_token = some ""; storage = storage };
  trail = [];
}

-- The first effect of a page and the cascade of what it dispatches.
unfoldable pub resume : ℕ → Dates → Website → Result
resume fuel dates w = elim (perform (init_effect w.jwt) w) [
  | crashed after ↦ threw after
  | done after later ↦ process fuel dates after later
]

-- What a page becomes when it finds `token` in the storage: a session without a user.
abbrev pub resumed : String → Website → Website
resumed token w = record w {
  auth = record w.auth {
    user_state = record w.auth.user_state {
      logged_in = true;
      session = some (record { token = token; scope = ""; expire = 0 });
    };
  };
}

authorization-get_token :
    (token : String) (j : JwtService)
    → token ≢ ""
    → get_token j ≡ token
    → (has_token j ≡ true) × (authorization j ≡ some ("Bearer " +++ token))
unfolding authorization
authorization-get_token token j some_text e = elim (Bool-cases (str_eq token "")) [
  | inl empty ↦ absurd (some_text ((eq_iff token "").0 empty))
  | inr full ↦ rw (e, full) (refl, refl)
]

auth_link-save_token :
    (token : String) (j : JwtService)
    → token ≢ ""
    → (j.storage.full ≡ false) ⊎ (j.storage.accessible ≡ false)
    → auth_link (save_token (some token) j)
      ≡ (if j.storage.accessible then some ("Bearer " +++ token) else none)
unfolding auth_link save_token
auth_link-save_token token j some_text writable = elim (Bool-cases (str_eq token "")) [
  | inl empty ↦ absurd (some_text ((eq_iff token "").0 empty))
  | inr full ↦ ground (arith, full, writable)
]

-- Where the browser's storage takes writes or cannot be reached, the reply to a login with a token,
-- whatever errors come with it, makes the cascade finish with the user and the session known, the
-- login page reset and the dashboard opened; the guard admits without a redirection. The requests to
-- the REST interface carry the token; those to the GraphQL interface carry it if the storage can be
-- reached, and otherwise reading it for them throws.
pub process-login_answer :
    (dates : Dates) (w : Website) (res : GraphLogin) (errors : Option (List GraphqlError))
    (fuel : ℕ)
    → res.token ≢ ""
    → (w.jwt.storage.full ≡ false) ⊎ (w.jwt.storage.accessible ≡ false)
    → let answer =
        login_answer (login_outcome (reply (record { value = some res; errors = errors }))) in
      (process (suc fuel) dates w (WebsiteAction.auth answer ∷ []) ≡ finished (after_login res w))
      × (can_activate (after_login res w).auth.user_state ≡ (true, []))
      × (authorization (after_login res w).jwt ≡ some ("Bearer " +++ res.token))
      × (auth_link (after_login res w).jwt
          ≡ (if w.jwt.storage.accessible then some ("Bearer " +++ res.token) else none))
unfolding process reduce effects perform auth_effects login_answer login_outcome read_value
    auth_state_reducer login_state_reducer user_state_reducer can_activate
process-login_answer dates w res errors fuel some_text writable = (
  refl,
  refl,
  (authorization-get_token res.token _ some_text (get_token-save_token res.token w.jwt writable)).1,
  auth_link-save_token res.token w.jwt some_text writable,
)

get_token-opened_page :
    (res : GraphLogin) (w : Website)
    → w.jwt.storage.accessible ≡ true
    → w.jwt.storage.full ≡ false
    → get_token (opened_page (after_login res w).jwt.storage).jwt ≡ res.token
unfolding get_token save_token
get_token-opened_page res w reach room = ground arith

auth_link-opened_page :
    (res : GraphLogin) (w : Website)
    → res.token ≢ ""
    → w.jwt.storage.accessible ≡ true
    → w.jwt.storage.full ≡ false
    → auth_link (opened_page (after_login res w).jwt.storage).jwt ≡ some ("Bearer " +++ res.token)
unfolding auth_link
auth_link-opened_page res w some_text reach room =
    auth_link-save_token res.token w.jwt some_text (inl room) ∙ rw reach refl

init_effect-has_token :
    (token : String) (j : JwtService)
    → get_token j ≡ token
    → has_token j ≡ true
    → init_effect j
      ≡ Command.dispatch (
          WebsiteAction.auth
            (load_token_success (record { token = some token; scope = none; expire = none })))
        ∷ []
unfolding init_effect
init_effect-has_token token j e full = ground (arith, e, full)

resume-has_token :
    (dates : Dates) (page : Website) (token : String) (fuel : ℕ)
    → get_token page.jwt ≡ token
    → has_token page.jwt ≡ true
    → resume (suc fuel) dates page ≡ finished (resumed token page)
unfolding resume process reduce effects perform auth_effects auth_state_reducer login_state_reducer
    user_state_reducer
resume-has_token dates page token fuel e full =
    rw (resume, init_effect-has_token token page.jwt e full) refl

-- Where the browser's storage can be reached and takes writes, a page that is opened after such a
-- login resumes the session: the guard admits, and requests carry the token, to the REST interface
-- and to the GraphQL interface. What it finds is the session alone, without the user.
pub resume-after_login :
    (dates : Dates) (w : Website) (res : GraphLogin) (fuel : ℕ)
    → res.token ≢ ""
    → w.jwt.storage.accessible ≡ true
    → w.jwt.storage.full ≡ false
    → let page = opened_page (after_login res w).jwt.storage in
      (resume (suc fuel) dates page ≡ finished (resumed res.token page))
      × (can_activate (resumed res.token page).auth.user_state ≡ (true, []))
      × (authorization page.jwt ≡ some ("Bearer " +++ res.token))
      × (auth_link page.jwt ≡ some ("Bearer " +++ res.token))
unfolding can_activate
resume-after_login dates w res fuel some_text reach room =
    let page = opened_page (after_login res w).jwt.storage in
    let e = get_token-opened_page res w reach room in
    let (full, header) = authorization-get_token res.token page.jwt some_text e in
    (
      resume-has_token dates page res.token fuel e full,
      refl,
      header,
      auth_link-opened_page res w some_text reach room,
    )
