-- ===== src/Pages/Dashboard/PadsVisit.antt =====
-- The page of the pads (pages/dashboard/pages/pads/pages/main/pads.component.ts) with its filter and
-- its table (pages/dashboard/pages/pads/components), over the feature of the pads in the store.
pub mod Asked
mod Tests
use editor_sh.Prelude.{ℕ, String, Option, none, some, List, [], ◌∷◌, ◌++◌, foldl}
use editor_sh.Store.Dashboard.Pads.{
  PadsFilters, no_filters, Pad, PadsPage, PadsAction, PadsState, query_all, query_all_success,
  filter_change, page_change, goto_pad_hash, pads_state_reducer,
}
use editor_sh.Store.Dashboard.Pads.Effects.{pads_effects}
use editor_sh.Store.Action.{Command}

-- `PadFilterChange`, which is also what the three fields of the filter hold.
pub record PadFilter : Type 0 where
  pub search : String
  pub status : String
  pub days : String

abbrev pub no_filter : PadFilter
no_filter = record { search = ""; status = ""; days = "" }

-- The fields of the filter, the state of the pads, and what their effects did.
pub record PadsVisit : Type 0 where
  pub filter : PadFilter
  pub pads : PadsState
  pub trail : List Command

unfoldable pub dispatch : PadsAction → PadsVisit → PadsVisit
dispatch action visit =
    let pads = pads_state_reducer visit.pads action in
    record visit { pads = pads; trail = visit.trail ++ pads_effects pads action }

-- `ngOnInit` of a page, with a new filter, over the store as it is
unfoldable pub enter : PadsState → PadsVisit
unfolding dispatch
enter pads =
    dispatch (query_all 0 5 no_filters) (record { filter = no_filter; pads = pads; trail = [] })

-- `{ ...event }` for a change of the filter
abbrev pub filters_of : PadFilter → PadsFilters
filters_of filter = record {
  search = some filter.search;
  status = some filter.status;
  days = some filter.days;
}

-- `onPadFilterChange`, for the filter that the component emits
unfoldable pub on_pad_filter_change : PadFilter → PadsVisit → PadsVisit
unfolding dispatch
on_pad_filter_change filter visit =
    dispatch (filter_change (some (filters_of filter))) (record visit { filter = filter })

unfoldable pub on_pad_page_event : ℕ → ℕ → PadsVisit → PadsVisit
unfolding dispatch
on_pad_page_event page_index page_size visit = dispatch (page_change page_index page_size) visit

pub data PadAction : Type 0 where
  start edit end playback archive : PadAction

-- `onPadActionData`, where all but `start` are still to be written
unfoldable pub on_pad_action_data : PadAction → Pad → PadsVisit → PadsVisit
unfolding dispatch
on_pad_action_data start pad visit = dispatch (goto_pad_hash pad.hash) visit
on_pad_action_data _ pad visit = visit

pub data PadsEvent : Type 0 where
  search_typed status_selected days_selected : String → PadsEvent
  page_selected : (page_index page_size : ℕ) → PadsEvent
  acted : PadAction → Pad → PadsEvent
  answered : PadsPage → PadsEvent

unfoldable pub on_pads_event : PadsVisit → PadsEvent → PadsVisit
unfolding on_pad_filter_change on_pad_page_event on_pad_action_data dispatch
on_pads_event visit (search_typed search) =
    on_pad_filter_change (record visit.filter { search = search }) visit
on_pads_event visit (status_selected status) =
    on_pad_filter_change (record visit.filter { status = status }) visit
on_pads_event visit (days_selected days) =
    on_pad_filter_change (record visit.filter { days = days }) visit
on_pads_event visit (page_selected page_index page_size) =
    on_pad_page_event page_index page_size visit
on_pads_event visit (acted action pad) = on_pad_action_data action pad visit
on_pads_event visit (answered page) = dispatch (query_all_success page) visit

abbrev pub run : PadsVisit → List PadsEvent → PadsVisit
run visit events = foldl on_pads_event visit events
