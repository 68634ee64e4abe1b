-- ===== src/Store/Website/Expiry.antt =====
-- A session that the server does not know any more, from the response to the end of the cascade.
use editor_sh.Prelude.{
  String, ◌==◌, ℕ, false, none, some, or_else, [], ◌∷◌, ◌++◌, map, ◌≡◌, refl, suc,
}
use editor_sh.Service.Jwt.{destroy_token}
use editor_sh.Service.Api.{HttpErrorResponse, text, state_params, handle_unauthorized_error}
use editor_sh.Store.Common.{Fields, fields, common_state_reducer, new_snack_bar_message}
use editor_sh.Store.Common.Effects.{common_effects, field_value, make_error_message}
use editor_sh.Store.Auth.{auth_state_reducer, login_state_reducer, user_state_reducer}
use editor_sh.Store.Auth.Effects.{auth_effects, to_login, can_activate}
use editor_sh.Store.Dashboard.Questions.Effects.{Dates}
use editor_sh.Store.Action.{WebsiteAction, Command}
use editor_sh.Store.Website.{Website, reduce, effects, perform, finished, process}

-- What the website is after a refused request with the errors `fs`.
abbrev pub after_refusal : Fields → Website → Website
after_refusal fs w = record w {
  common = record w.common {
    api_error_state = some (record { errors = fields fs });
    snack_bar_message = some (
        new_snack_bar_message
          (record { message = some (or_else (field_value "detail" fs) ""); action = none }));
  };
  jwt = destroy_token w.jwt;
  trail = w.trail ++ (Command.navigate to_login ∷ []);
}

-- After a response with status 401 and errors, the cascade finishes: the token is destroyed, the
-- login page is opened, the errors are kept and their `detail` is shown; the state of the auth
-- feature is as it was, so that the guard answers as before.
pub process-handle_unauthorized_error :
    (dates : Dates) (w : Website) (resp : HttpErrorResponse) (fs : Fields) (fuel : ℕ)
    → resp.status ≡ 401
    → resp.ok ≡ false
    → state_params resp.error ≡ record { errors = fields fs }
    → let queue = map WebsiteAction.common (handle_unauthorized_error resp) in
      (process (suc (suc (suc (suc fuel)))) dates w queue ≡ finished (after_refusal fs w))
      × (can_activate (after_refusal fs w).auth.user_state ≡ can_activate w.auth.user_state)
unfolding process reduce effects perform handle_unauthorized_error common_effects make_error_message
    common_state_reducer auth_state_reducer login_state_reducer user_state_reducer auth_effects
process-handle_unauthorized_error dates w resp fs fuel s o e = rw (s, o, e) (refl, refl)

-- After any other response with an error that is a text, the cascade finishes without anything
-- going out: the text is kept as `msg`, and the message that is shown is empty, whatever it says.
pub process-handle_text_error :
    (dates : Dates) (w : Website) (resp : HttpErrorResponse) (t : String) (fuel : ℕ)
    → (resp.status == 401) ≡ false
    → resp.ok ≡ false
    → resp.error ≡ text t
    → process (suc (suc fuel)) dates w (map WebsiteAction.common (handle_unauthorized_error resp))
      ≡ finished (record w {
        common = record w.common {
          api_error_state = some (record { errors = fields (("msg", t) ∷ []) });
          snack_bar_message = some (record { message = ""; action = "[ OK ]" });
        };
      })
unfolding process reduce effects perform handle_unauthorized_error common_effects make_error_message
    common_state_reducer new_snack_bar_message field_value
process-handle_text_error dates w resp t fuel s o e = rw (s, o, e) refl
