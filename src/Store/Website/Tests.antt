-- ===== src/Store/Website/Tests.antt =====
-- Inputs for the properties of the whole store.
use editor_sh.Prelude.{
  none, ◌+++◌, inl, true, false, some, List, [], ◌∷◌, map, ◌≡◌, ◌≢◌, refl, arith,
}
use editor_sh.Service.Api.{HttpErrorResponse, ErrorBody, body, handle_unauthorized_error}
use editor_sh.Service.Api.{authorization}
use editor_sh.Service.Graphql.{GraphLogin, reply, login_outcome, auth_link}
use editor_sh.Store.Common.{Fields, fields, CommonAction, initial_common_state}
use editor_sh.Store.Auth.{initial_auth_state, refresh_token}
use editor_sh.Store.Auth.Effects.{can_activate, login_answer}
use editor_sh.Store.Dashboard.Questions.{initial_questions_state}
use editor_sh.Store.Dashboard.Questions.Effects.{Dates}
use editor_sh.Store.Dashboard.Databases.{initial_databases_state}
use editor_sh.Store.Dashboard.Pads.{initial_pads_state}
use editor_sh.Store.Dashboard.Settings.{initial_settings_state}
use editor_sh.Store.Action.{WebsiteAction}
use editor_sh.Store.Website.{Website, finished, out_of_fuel, process}
use editor_sh.Store.Website.Session.{
  after_login, opened_page, resume, resumed, process-login_answer, resume-after_login,
}
use editor_sh.Store.Website.Cascade.{process-ends}
use editor_sh.Store.Website.Expiry.{after_refusal, process-handle_unauthorized_error}

abbrev dates : Dates
dates = record { to_utc_string = λ t. "then"; new_date = λ s. 0 }

abbrev website : Website
website = record {
  common = initial_common_state;
  auth = initial_auth_state;
  questions = initial_questions_state;
  databases = initial_databases_state;
  pads = initial_pads_state;
  settings = initial_settings_state;
  jwt = record {
    local_token = some "";
    storage = record { accessible = true; full = false; item = some "t0" };
  };
  trail = [];
}

abbrev details : Fields
details = ("detail", "Signature has expired") ∷ []

abbrev refusal : HttpErrorResponse
refusal = record { status = 401; ok = false; error = body (record { errors = fields details }) }

process-handle_unauthorized_error_example :
    (process 5 dates website (map WebsiteAction.common (handle_unauthorized_error refusal))
      ≡ finished (after_refusal details website))
    × (can_activate (after_refusal details website).auth.user_state
        ≡ can_activate website.auth.user_state)
process-handle_unauthorized_error_example =
    process-handle_unauthorized_error dates website refusal details 1 refl refl refl

abbrev queue : List WebsiteAction
queue =
    WebsiteAction.common CommonAction.api_unauthorized_access
    ∷ WebsiteAction.auth refresh_token
    ∷ []

process-ends_example : process 4 dates website queue ≢ out_of_fuel
process-ends_example = process-ends dates website queue 4 (omega arith)

abbrev failure : HttpErrorResponse
failure = record { status = 500; ok = false; error = ErrorBody.text "out of memory" }

abbrev ada : GraphLogin
ada = record { token = "t1"; id = 7; email = "ada@editor.sh"; name = "Ada" }

ada_token : ada.token ≢ ""
ada_token = λ e. cc

process-login_answer_example :
    (process 1 dates website (
        WebsiteAction.auth
          (login_answer (login_outcome (reply (record { value = some ada; errors = none }))))
        ∷ [])
      ≡ finished (after_login ada website))
    × (can_activate (after_login ada website).auth.user_state ≡ (true, []))
    × (authorization (after_login ada website).jwt ≡ some ("Bearer " +++ ada.token))
    × (auth_link (after_login ada website).jwt ≡ some ("Bearer " +++ ada.token))
process-login_answer_example = process-login_answer dates website ada none 0 ada_token (inl refl)

abbrev page : Website
page = opened_page (after_login ada website).jwt.storage

resume-after_login_example :
    (resume 1 dates page ≡ finished (resumed ada.token page))
    × (can_activate (resumed ada.token page).auth.user_state ≡ (true, []))
    × (authorization page.jwt ≡ some ("Bearer " +++ ada.token))
    × (auth_link page.jwt ≡ some ("Bearer " +++ ada.token))
resume-after_login_example = resume-after_login dates website ada 0 ada_token refl refl
