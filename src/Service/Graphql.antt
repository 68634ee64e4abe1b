-- ===== src/Service/Graphql.antt =====
-- The GraphQL service (shared/services/api/graphql.service.ts): the header of each request, the variables of each call, what is
-- made of the reply, and how a failure is passed on. The Apollo client answers a call by a reply,
-- with the data and the errors that the server gave (`errorPolicy: 'all'`), or throws.
use editor_sh.Prelude.{ℕ, String, ◌+++◌, str_eq, Bool, Option, none, some, List, map, if◌then◌else◌}
use editor_sh.Service.Jwt.{JwtService}
use editor_sh.Store.Common.{Fields, ApiErrorMessage, ApiErrors, absent, messages}
use editor_sh.Store.Auth.{
  Authentication, Registration, OauthLoginParams, OauthUrlParams, UserParams, SessionParams,
}
use editor_sh.Store.Dashboard.Pads.{PadsFilters, Pad, PadsPage}

-- `createApollo`: the value of `authorization` that each request is given. It is read from the
-- browser's storage, without the token store: where the storage cannot be reached the reading throws
-- (`none`).
unfoldable pub auth_link : JwtService → Option String
auth_link j =
    if j.storage.accessible
    then elim j.storage.item [
      | none ↦ some ""
      | some token ↦ if str_eq token "" then some "" else some ("Bearer " +++ token)
    ]
    else none

pub data GraphqlCall : Type 0 where
  user_login : (email password : String) → GraphqlCall
  user_oauth_query_url : (platform : String) → GraphqlCall
  user_oauth_login : (platform code : String) → GraphqlCall
  user_register : (email name password : String) → (email_subscription : Bool) → GraphqlCall
  user_logout : GraphqlCall
  pads_query_all : (page_index page_size : ℕ) → (filters : PadsFilters) → GraphqlCall
  pads_create : (title language : Option String) → GraphqlCall

pub record GraphqlError : Type 0 where
  pub message : String
  pub extensions : Option Fields

-- `value` is what the query asks for; `none` where the path to it cannot be followed, so that
-- reading it throws a TypeError.
pub record Reply (A : Type 0) : Type 0 where
  pub value : Option A
  pub errors : Option (List GraphqlError)

pub data Thrown : Type 0 where
  apollo_error : List GraphqlError → Thrown
  http_error_response : List GraphqlError → Thrown
  type_error : Thrown

pub data Answer (A : Type 0) : Type 0 where
  reply : Reply A → Answer A
  threw : Thrown → Answer A

-- What the effects catch.
pub data Failure : Type 0 where
  translated : List ApiErrorMessage → Failure
  http : List GraphqlError → Failure
  other : Failure

pub data Outcome (A : Type 0) : Type 0 where
  completed : A → Outcome A
  failed : Failure → Outcome A

abbrev message_of : GraphqlError → ApiErrorMessage
message_of item = record { message = item.message; extensions = item.extensions }

unfoldable pub translate_error_response : Thrown → Failure
translate_error_response (apollo_error errors) = translated (map message_of errors)
translate_error_response (http_error_response errors) = http errors
translate_error_response type_error = other

-- `map` of a call that reads its data at once, and `catch`
unfoldable pub read_value : {A : Type 0} → Answer A → Outcome A
read_value (threw e) = failed (translate_error_response e)
read_value (reply r) = elim r.value [
  | none ↦ failed (translate_error_response type_error)
  | some a ↦ completed a
]

-- `map` of a call that looks at the errors first, and `catch`
unfoldable pub read_checked : {A : Type 0} → Answer A → Outcome A
unfolding read_value
read_checked (threw e) = failed (translate_error_response e)
read_checked (reply r) = elim r.errors [
  | some errors ↦ failed (translate_error_response (http_error_response errors))
  | none ↦ read_value (reply r)
]

-- `session { token }, user { id, email, name }`
pub record GraphLogin : Type 0 where
  pub token : String
  pub id : ℕ
  pub email : String
  pub name : String

abbrev pub user_of : GraphLogin → UserParams
user_of res = record { id = some res.id; name = some res.name; email = some res.email }

abbrev pub session_of : GraphLogin → SessionParams
session_of res = record { token = some res.token; scope = none; expire = none }

unfoldable pub login_call : Authentication → GraphqlCall
login_call auth = user_login auth.email auth.password

unfoldable pub register_call : Registration → GraphqlCall
register_call r = user_register r.email r.name r.password r.email_subscription

unfoldable pub oauth_login_call : OauthLoginParams → GraphqlCall
oauth_login_call p = user_oauth_login p.platform p.code

-- `userLogin`, `userOAuthLogin` and `userRegister` do not look at the errors of a reply.
unfoldable pub login_outcome : Answer GraphLogin → Outcome GraphLogin
unfolding read_value
login_outcome a = read_value a

unfoldable pub oauth_url_outcome : Answer OauthUrlParams → Outcome OauthUrlParams
unfolding read_value
oauth_url_outcome a = read_value a

-- `userLogout` reads no data: its value is always there.
unfoldable pub logout_outcome : Answer (Unit {0}) → Outcome (Unit {0})
unfolding read_checked
logout_outcome a = read_checked a

unfoldable pub pads_query_all_outcome : Answer PadsPage → Outcome PadsPage
unfolding read_checked
pads_query_all_outcome a = read_checked a

unfoldable pub pads_create_outcome : Answer Pad → Outcome Pad
unfolding read_checked
pads_create_outcome a = read_checked a

-- `err.errors`, of what an effect caught
abbrev pub errors_of : Failure → ApiErrors
errors_of (translated msgs) = messages msgs
errors_of (http errors) = absent
errors_of other = absent
