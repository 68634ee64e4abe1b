-- ===== src/Store/Common.antt =====
-- The common feature of the store (store/common/store): its model, actions, reducer, selectors.
-- In Immutable's records a field that is given as `undefined` takes its default.
pub mod Effects
use editor_sh.Prelude.{ℕ, String, Bool, true, Option, none, some, or_else, List}

-- `{ [key: string]: string }`
abbrev pub Fields : Type 0
Fields = List (String × String)

pub record ApiErrorMessage : Type 0 where
  pub message : String
  pub extensions : Option Fields

-- The `errors` of a failure: none, an array of messages, or what a REST response carries there
-- in practice, an object with texts for values.
pub data ApiErrors : Type 0 where
  absent : ApiErrors
  messages : List ApiErrorMessage → ApiErrors
  fields : Fields → ApiErrors

pub record ApiErrorStateParams : Type 0 where
  pub errors : ApiErrors

pub record ApiErrorState : Type 0 where
  pub errors : ApiErrors

pub record SnackBarMessageParams : Type 0 where
  pub message : Option String
  pub action : Option String

pub record SnackBarMessage : Type 0 where
  pub message : String
  pub action : String

-- `new SnackBarMessage(params)`
unfoldable pub new_snack_bar_message : SnackBarMessageParams → SnackBarMessage
new_snack_bar_message p = record {
  message = or_else p.message "";
  action = or_else p.action "[ OK ]";
}

-- A value of type `any`, and a callback by its number.
pub data AnyValue : Type 0 where
  bool : Bool → AnyValue
  object : ℕ → AnyValue

pub record ConfirmDataParams : Type 0 where
  pub title : Option String
  pub content : Option String
  pub payload : Option AnyValue
  pub cancel_button : Option String
  pub ok_button : Option String
  pub ok_color : Option String
  pub after_close : Option ℕ

pub record ConfirmData : Type 0 where
  pub title : String
  pub content : String
  pub payload : AnyValue
  pub cancel_button : String
  pub ok_button : String
  pub ok_color : String
  pub after_close : Option ℕ

-- `new ConfirmData(params)`
unfoldable pub new_confirm_data : ConfirmDataParams → ConfirmData
new_confirm_data p = record {
  title = or_else p.title "";
  content = or_else p.content "";
  payload = or_else p.payload (bool true);
  cancel_button = or_else p.cancel_button "";
  ok_button = or_else p.ok_button "";
  ok_color = or_else p.ok_color "";
  after_close = p.after_close;
}

pub record CommonState : Type 0 where
  pub snack_bar_message : Option SnackBarMessage
  pub api_error_state : Option ApiErrorState
  pub confirm_data : Option ConfirmData

abbrev pub initial_common_state : CommonState
initial_common_state = record {
  snack_bar_message = none;
  api_error_state = none;
  confirm_data = none;
}

pub data CommonAction : Type 0 where
  snack_bar_message : SnackBarMessageParams → CommonAction
  snack_bar_message_reset : CommonAction
  api_error_state : ApiErrorStateParams → CommonAction
  api_error_state_reset : CommonAction
  api_unauthorized_access : CommonAction
  confirm_dialog : Option ConfirmDataParams → CommonAction

-- `payload && new ConfirmData(payload) || null`
confirm_data_of : Option ConfirmDataParams → Option ConfirmData
unfolding new_confirm_data
confirm_data_of none = none
confirm_data_of (some p) = some (new_confirm_data p)

unfoldable pub common_state_reducer : CommonState → CommonAction → CommonState
unfolding new_snack_bar_message confirm_data_of
common_state_reducer state (CommonAction.snack_bar_message payload) = record state {
  snack_bar_message = some (new_snack_bar_message payload);
}
common_state_reducer state CommonAction.snack_bar_message_reset = record state {
  snack_bar_message = none;
}
common_state_reducer state (CommonAction.api_error_state payload) = record state {
  api_error_state = some (record { errors = payload.errors });
}
common_state_reducer state CommonAction.api_error_state_reset = record state {
  api_error_state = none;
}
common_state_reducer state CommonAction.api_unauthorized_access = state
common_state_reducer state (CommonAction.confirm_dialog payload) = record state {
  confirm_data = confirm_data_of payload;
}
