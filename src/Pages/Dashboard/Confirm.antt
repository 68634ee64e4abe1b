-- ===== src/Pages/Dashboard/Confirm.antt =====
-- What is confirmed before it is done: the dialog that the dashboard opens
-- (pages/dashboard/main/dashboard.component.ts and components/confirm-dialog), and who asks for it,
-- the page that edits a question (pages/questions/pages/edit) and the one of the settings
-- (pages/settings/main).
pub mod Answers
pub mod Steps
pub mod Requests
mod Tests
use editor_sh.Prelude.{
  ℕ, zero, suc, Bool, true, false, Option, none, some, List, [], ◌∷◌, ◌++◌, length, if◌then◌else◌,
}
use editor_sh.Store.Common.{AnyValue, bool, object, ConfirmDataParams, ConfirmData, CommonAction}
use editor_sh.Store.Dashboard.Questions.{Question, QuestionsAction}
use editor_sh.Store.Dashboard.Questions.Effects.{Dates}
use editor_sh.Store.Dashboard.Settings.{SettingsAction}
use editor_sh.Store.Action.{WebsiteAction}
use editor_sh.Store.Website.{Website, Result, finished, threw, out_of_fuel, process}

-- What is asked for. A callback and a payload are known by the number of the ask that made them.
pub data Ask : Type 0 where
  delete_question : Question → Ask
  reset_api_key : Ask

-- `asked` has the asks so far, in their order, and `dialogs` the open dialogs, latest first.
pub record Confirming : Type 0 where
  pub website : Website
  pub asked : List Ask
  pub dialogs : List ConfirmData

abbrev pub ask_at : ℕ → List Ask → Option Ask
ask_at n [] = none
ask_at zero (a ∷ asked) = some a
ask_at (suc n) (a ∷ asked) = ask_at n asked

abbrev no_params : ConfirmDataParams
no_params = record {
  title = none;
  content = none;
  payload = none;
  cancel_button = none;
  ok_button = none;
  ok_color = none;
  after_close = none;
}

-- What `onDelete` and `onRefreshApiKey` ask with, for the ask of a number
unfoldable pub params_of : ℕ → Ask → ConfirmDataParams
params_of n (delete_question question) = record no_params {
  ok_button = some "Delete";
  ok_color = some "warn";
  payload = some (object n);
  after_close = some n;
}
params_of n reset_api_key = record no_params {
  content = some "Are you sure to RESET api key?";
  after_close = some n;
}

abbrev in_website : Confirming → Result → Option Confirming
in_website page (finished w) = some (record page { website = w })
in_website page (threw w) = none
in_website page out_of_fuel = none

-- A dispatch, with the cascade of its effects; `none` where something throws. None of the actions
-- that are dispatched here brings about another one.
unfoldable pub dispatch : Dates → WebsiteAction → Confirming → Option Confirming
unfolding process
dispatch dates action page = in_website page (process 2 dates page.website (action ∷ []))

-- `handleConfirmData`
unfoldable pub handle_confirm_data : Option ConfirmData → Confirming → Confirming
handle_confirm_data none page = page
handle_confirm_data (some data_of) page = record page { dialogs = data_of ∷ page.dialogs }

abbrev hear : Option Confirming → Option Confirming
hear none = none
hear (some page) = some (handle_confirm_data page.website.common.confirm_data page)

-- The store is told what to confirm, and the dashboard hears of it.
unfoldable pub confirm : Dates → Option ConfirmDataParams → Confirming → Option Confirming
unfolding dispatch handle_confirm_data
confirm dates params page =
    hear (dispatch dates (WebsiteAction.common (CommonAction.confirm_dialog params)) page)

unfoldable pub ask_for : Dates → Ask → Confirming → Option Confirming
unfolding confirm params_of
ask_for dates a page =
    confirm dates (some (params_of (length page.asked) a))
      (record page { asked = page.asked ++ (a ∷ []) })

-- How a dialog is closed: by its button, or by the other one or from outside.
pub data Closing : Type 0 where
  ok cancel : Closing

-- `payload` of the dialog, where `false` is falsy
unfoldable pub payload_of : ConfirmData → AnyValue
payload_of data_of = elim data_of.payload [ bool b ↦ bool true | object n ↦ object n ]

-- What the dialog is closed with, where `none` is the empty text or `undefined`, both falsy
abbrev result_of : Closing → ConfirmData → Option AnyValue
result_of ok data_of = some (payload_of data_of)
result_of cancel data_of = none

abbrev truthy : Option AnyValue → Bool
truthy none = false
truthy (some (bool b)) = b
truthy (some (object n)) = true

-- The question that a result stands for
abbrev pub question_of : Option AnyValue → List Ask → Option Question
question_of (some (object n)) asked = elim (ask_at n asked) [
  | some (delete_question question) ↦ some question
  | _ ↦ none
]
question_of _ asked = none

-- `afterClose` of the ask of a number: the action that it dispatches
abbrev delete_found : Option Question → Option WebsiteAction
delete_found (some question) = some (WebsiteAction.questions (QuestionsAction.delete question))
delete_found none = none

abbrev confirmed_action : Option Ask → Option AnyValue → List Ask → Option WebsiteAction
confirmed_action (some (delete_question q)) result asked = delete_found (question_of result asked)
confirmed_action (some reset_api_key) result asked =
    some (WebsiteAction.settings SettingsAction.refresh_api_key)
confirmed_action none result asked = none

unfoldable pub after_close : ℕ → Option AnyValue → List Ask → Option WebsiteAction
after_close n result asked =
    if truthy result then confirmed_action (ask_at n asked) result asked else none

abbrev dispatch_some : Dates → Option WebsiteAction → Confirming → Option Confirming
dispatch_some dates none page = some page
dispatch_some dates (some action) page = dispatch dates action page

abbrev clean_up : Dates → Option Confirming → Option Confirming
clean_up dates none = none
clean_up dates (some page) = confirm dates none page

-- What the dashboard does when a dialog was closed
unfoldable pub after_closed : Dates → ConfirmData → Option AnyValue → Confirming → Option Confirming
unfolding after_close dispatch confirm
after_closed dates data_of result page = elim data_of.after_close [
  | none ↦ some page
  | some n ↦ clean_up dates (dispatch_some dates (after_close n result page.asked) page)
]

pub data ConfirmEvent : Type 0 where
  ask : Ask → ConfirmEvent
  close : Closing → ConfirmEvent

abbrev pub close_first : Dates → Closing → List ConfirmData → Confirming → Option Confirming
close_first dates at [] page = some page
close_first dates at (data_of ∷ rest) page =
    after_closed dates data_of (result_of at data_of) (record page { dialogs = rest })

-- The dialogs are modal: the latest one is closed first.
unfoldable pub on_confirm_event : Dates → ConfirmEvent → Confirming → Option Confirming
unfolding ask_for after_closed payload_of
on_confirm_event dates (ask a) page = ask_for dates a page
on_confirm_event dates (close at) page = close_first dates at page.dialogs page

abbrev pub run : Dates → List ConfirmEvent → Confirming → Option Confirming
run dates [] page = some page
run dates (event ∷ later) page = elim (on_confirm_event dates event page) [
  | none ↦ none
  | some after ↦ run dates later after
]
