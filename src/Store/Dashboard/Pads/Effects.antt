-- ===== src/Store/Dashboard/Pads/Effects.antt =====
-- The effects of the pads (store/dashboard/stores/pads/pads.effect.ts). They see the state after
-- the reducer.
use editor_sh.Prelude.{String, Option, none, some, or_else, List, [], ◌∷◌, str_eq, if◌then◌else◌}
use editor_sh.Service.Api.{word}
use editor_sh.Service.Graphql.{GraphqlCall, Failure, http, Outcome, completed, failed}
use editor_sh.Store.Common.{CommonAction, ApiErrorStateParams, absent}
use editor_sh.Store.Dashboard.Pads.{
  Pad, PadsPage, no_filters, PadsAction, query_all, query_all_success, query_all_failure,
  filter_change, page_change, create_pad, create_pad_success, create_pad_failure, goto_pad_hash,
  PadsState,
}
use editor_sh.Store.Action.{WebsiteAction, Command}

-- `filters` of a request, where the payload of a filter change may be missing
unfoldable pub pads_effects : PadsState → PadsAction → List Command
pads_effects state (create_pad title language) =
    Command.graphql (GraphqlCall.pads_create none none) ∷ []
pads_effects state (create_pad_success pad) =
    Command.dispatch (WebsiteAction.pads (goto_pad_hash pad.hash)) ∷ []
pads_effects state (goto_pad_hash hash) = Command.navigate (word "/" ∷ word hash ∷ []) ∷ []
pads_effects state (query_all page_index page_size filters) =
    Command.graphql (GraphqlCall.pads_query_all page_index page_size filters) ∷ []
pads_effects state (filter_change payload) =
    Command.graphql (GraphqlCall.pads_query_all 0 state.page_size (or_else payload no_filters)) ∷ []
pads_effects state (page_change page_index page_size) =
    Command.graphql (GraphqlCall.pads_query_all page_index page_size state.filters) ∷ []
pads_effects state _ = []

-- `resp.error` of a failure that is no HttpErrorResponse is `undefined`; that of one has no field
-- `errors`.
abbrev error_params : Failure → Option ApiErrorStateParams
error_params (http errors) = some (record { errors = absent })
error_params _ = none

-- `data && data[0] && data[0].message || 'Pad create failure'`
unfoldable pub create_failure_message : Failure → String
create_failure_message (http []) = "Pad create failure"
create_failure_message (http (e ∷ rest)) =
    if str_eq e.message "" then "Pad create failure" else e.message
create_failure_message _ = "Pad create failure"

-- What `createPad$` does when the service has answered.
unfoldable pub create_pad_answer : Outcome Pad → List Command
unfolding create_failure_message
create_pad_answer (completed pad) =
    Command.dispatch (WebsiteAction.pads (create_pad_success pad)) ∷ []
create_pad_answer (failed err) =
    Command.dispatch (
      WebsiteAction.common (
        CommonAction.snack_bar_message
          (record { message = some (create_failure_message err); action = none })))
    ∷ Command.dispatch (WebsiteAction.pads (create_pad_failure (error_params err)))
    ∷ []

-- `queryAllPads$` and `doQueryAll`
unfoldable pub query_all_answer : Outcome PadsPage → PadsAction
query_all_answer (completed page) = query_all_success page
query_all_answer (failed err) = query_all_failure (error_params err)
