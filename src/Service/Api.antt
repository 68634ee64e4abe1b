-- ===== src/Service/Api.antt =====
-- The REST service (shared/services/api/api.service.ts): the requests, and the handling of a
-- response with an error. The address of an action is the configured one with the action's path
-- put in; it stands here by that path.
use editor_sh.Prelude.{
  ℕ, String, ◌+++◌, Bool, Option, none, some, List, [], ◌∷◌, ◌==◌, ltb, if◌then◌else◌, ◌++◌,
}
use editor_sh.Service.Jwt.{JwtService, get_token, has_token}
use editor_sh.Store.Common.{CommonAction, ApiErrorStateParams, fields}
use editor_sh.Store.Dashboard.Databases.{DatabaseStatus}

pub data Method : Type 0 where
  get post put delete : Method

pub data Segment : Type 0 where
  word : String → Segment
  number : ℕ → Segment

abbrev pub UrlPath : Type 0
UrlPath = List Segment

-- The question of a `ReqQuestionSave`: `create_time` is what `toUTCString` gives.
pub record QuestionBody : Type 0 where
  pub id : ℕ
  pub language : String
  pub author : String
  pub title : String
  pub notes : String
  pub content : String
  pub create_time : String
  pub favorite : Bool

pub record DatabaseBody : Type 0 where
  pub id : ℕ
  pub title : String
  pub status : Option DatabaseStatus
  pub engine : String
  pub description : String
  pub script : String
  pub summary : String

pub record SettingBody : Type 0 where
  pub id : ℕ
  pub api_key : String
  pub language : String
  pub pads_private : Bool
  pub email_subscription : Bool
  pub code_execution : Bool
  pub email : String
  pub name : String

pub data Body : Type 0 where
  no_body empty_body : Body
  search_params : (offset limit : ℕ) → (search : String) → Body
  favorite_body : ℕ → Bool → Body
  question_body : QuestionBody → Body
  database_body : DatabaseBody → Body
  setting_body : SettingBody → Body

-- A request, but for the headers, which are made when it is sent.
pub record Request : Type 0 where
  pub method : Method
  pub path : UrlPath
  pub body : Body

-- `getHttpHeaders`: the value of `Authorization`, if it is set
unfoldable pub authorization : JwtService → Option String
authorization j = if has_token j then some ("Bearer " +++ get_token j) else none

abbrev pub request : Method → UrlPath → Body → Request
request method path body = record { method = method; path = path; body = body }

-- `questionsQueryAll`
unfoldable pub questions_query_all : ℕ → ℕ → String → Request
questions_query_all offset limit search =
    request get (word "dashboard/questions" ∷ []) (search_params offset limit search)

unfoldable pub question_update_favorite : ℕ → Bool → Request
question_update_favorite id favorite =
    request post (word "dashboard/questions" ∷ number id ∷ word "favorite" ∷ [])
      (favorite_body id favorite)

unfoldable pub question_save : QuestionBody → Request
question_save q =
    if ltb 0 q.id
    then request put (word "dashboard/questions" ∷ number q.id ∷ []) (question_body q)
    else request post (word "dashboard/questions" ∷ []) (question_body q)

unfoldable pub question_delete : ℕ → Request
question_delete id = request delete (word "dashboard/questions" ∷ number id ∷ []) no_body

unfoldable pub question_query_one : ℕ → Request
question_query_one id = request get (word "dashboard/questions" ∷ number id ∷ []) no_body

unfoldable pub databases_query_all : Request
databases_query_all = request get (word "dashboard/databases" ∷ []) no_body

unfoldable pub database_save : DatabaseBody → Request
database_save d =
    if ltb 0 d.id
    then request put (word "dashboard/databases" ∷ number d.id ∷ []) (database_body d)
    else request post (word "dashboard/databases" ∷ []) (database_body d)

unfoldable pub database_delete : ℕ → Request
database_delete id = request delete (word "dashboard/databases" ∷ number id ∷ []) no_body

unfoldable pub setting_query : Request
setting_query = request get (word "dashboard/settings" ∷ []) no_body

unfoldable pub setting_save : SettingBody → Request
setting_save s = request put (word "dashboard/settings" ∷ number s.id ∷ []) (setting_body s)

unfoldable pub setting_refresh_api_key : Request
setting_refresh_api_key = request post (word "dashboard/settings/refresh_api_key" ∷ []) empty_body

-- `resp.error`: a text, or a body with its `errors`
pub data ErrorBody : Type 0 where
  text : String → ErrorBody
  body : ApiErrorStateParams → ErrorBody

pub record HttpErrorResponse : Type 0 where
  pub status : ℕ
  pub ok : Bool
  pub error : ErrorBody

-- A text is wrapped as `{ errors: { msg: text } }`.
abbrev pub state_params : ErrorBody → ApiErrorStateParams
state_params (text t) = record { errors = fields (("msg", t) ∷ []) }
state_params (body p) = p

unfoldable pub reported_error : HttpErrorResponse → ErrorBody
reported_error resp = if resp.ok then resp.error else body (state_params resp.error)

-- `handleUnauthorizedError`: the actions that are dispatched; the response with
-- `reported_error` is then thrown on to the effect.
unfoldable pub handle_unauthorized_error : HttpErrorResponse → List CommonAction
handle_unauthorized_error resp =
    (if resp.status == 401 then CommonAction.api_unauthorized_access ∷ [] else [])
    ++ (if resp.ok then [] else CommonAction.api_error_state (state_params resp.error) ∷ [])
