-- ===== src/Pages/Dashboard/PadsVisit/Asked.antt =====
-- Whether the pads that are asked for are those of the filter that is shown.
use editor_sh.Prelude.{ℕ, Option, none, some, or_else, List, [], ◌∷◌, ◌++◌, ◌≡◌, refl, ap, ◌∙◌}
use editor_sh.Service.Graphql.{GraphqlCall}
use editor_sh.Store.Dashboard.Pads.{PadsFilters, PadsState, PadsPage, pads_state_reducer}
use editor_sh.Store.Dashboard.Pads.Effects.{pads_effects}
use editor_sh.Store.Action.{Command}
use editor_sh.Pages.Dashboard.PadsVisit.{
  PadFilter, no_filter, PadsVisit, dispatch, enter, on_pad_filter_change, on_pad_page_event,
  on_pad_action_data, start, edit, end, playback, archive, PadsEvent, search_typed, status_selected,
  days_selected, page_selected, acted, answered, on_pads_event, run,
}

-- A filter of a request as the filter shows it: what is missing is empty.
abbrev pub shown : PadsFilters → PadFilter
shown filters = record {
  search = or_else filters.search "";
  status = or_else filters.status "";
  days = or_else filters.days "";
}

-- The filter of the last request for pads, after one that came before
abbrev pub last_asked : Option PadFilter → List Command → Option PadFilter
last_asked before [] = before
last_asked before (Command.graphql (GraphqlCall.pads_query_all i n filters) ∷ rest) =
    last_asked (some (shown filters)) rest
last_asked before (_ ∷ rest) = last_asked before rest

-- The store and the last request have the filter that is shown.
pub record IsAsked (visit : PadsVisit) : Type 0 where
  pub stored : shown visit.pads.filters ≡ visit.filter
  pub asked : last_asked none visit.trail ≡ some visit.filter

last_asked-append :
    (xs ys : List Command) (before : Option PadFilter)
    → last_asked before (xs ++ ys) ≡ last_asked (last_asked before xs) ys
last_asked-append [] ys before = refl
last_asked-append (Command.graphql (GraphqlCall.pads_query_all i n f) ∷ xs) ys before =
    last_asked-append xs ys (some (shown f))
last_asked-append (x ∷ xs) ys before = last_asked-append xs ys before

filter-IsAsked :
    (filter : PadFilter) (visit : PadsVisit) → IsAsked (on_pad_filter_change filter visit)
unfolding on_pad_filter_change dispatch pads_state_reducer pads_effects
filter-IsAsked filter visit = record { stored = refl; asked = last_asked-append visit.trail _ none }

-- A request with the filters of the store
page-IsAsked : (i n : ℕ) (visit : PadsVisit) → IsAsked visit → IsAsked (on_pad_page_event i n visit)
unfolding on_pad_page_event dispatch pads_state_reducer pads_effects
page-IsAsked i n visit h = record {
  stored = h.stored;
  asked = last_asked-append visit.trail _ none ∙ ap some h.stored;
}

event-IsAsked :
    (event : PadsEvent) (visit : PadsVisit) → IsAsked visit → IsAsked (on_pads_event visit event)
unfolding on_pads_event on_pad_action_data dispatch pads_state_reducer pads_effects
event-IsAsked (search_typed search) visit h = filter-IsAsked _ visit
event-IsAsked (status_selected status) visit h = filter-IsAsked _ visit
event-IsAsked (days_selected days) visit h = filter-IsAsked _ visit
event-IsAsked (page_selected i n) visit h = page-IsAsked i n visit h
event-IsAsked (acted start pad) visit h = record {
  stored = h.stored;
  asked = last_asked-append visit.trail _ none ∙ h.asked;
}
event-IsAsked (acted edit pad) visit h = h
event-IsAsked (acted end pad) visit h = h
event-IsAsked (acted playback pad) visit h = h
event-IsAsked (acted archive pad) visit h = h
event-IsAsked (answered page) visit h = record {
  stored = h.stored;
  asked = last_asked-append visit.trail _ none ∙ h.asked;
}

foldl-IsAsked :
    (events : List PadsEvent) (visit : PadsVisit) → IsAsked visit → IsAsked (run visit events)
foldl-IsAsked [] visit h = h
foldl-IsAsked (event ∷ later) visit h =
    foldl-IsAsked later (on_pads_event visit event) (event-IsAsked event visit h)

enter-IsAsked : (pads : PadsState) → shown pads.filters ≡ no_filter → IsAsked (enter pads)
unfolding enter dispatch pads_state_reducer pads_effects
enter-IsAsked pads e = record { stored = e; asked = refl }

-- On a visit over a store without filters, whatever is typed, selected and answered: the last
-- request for pads has the filter that is shown, and so does the store.
pub run-IsAsked :
    (pads : PadsState) (events : List PadsEvent)
    → shown pads.filters ≡ no_filter
    → IsAsked (run (enter pads) events)
run-IsAsked pads events e = foldl-IsAsked events (enter pads) (enter-IsAsked pads e)

-- On a visit over a store with the filters of an earlier visit, answers and another page: the
-- filter that is shown is empty, and empty is the one that was asked for at first, but for the other
-- page the old filters are asked for.
pub run-stale :
    (pads : PadsState) (page : PadsPage) (page_index page_size : ℕ)
    → let before = run (enter pads) (answered page ∷ []) in
      let after = run (enter pads) (answered page ∷ page_selected page_index page_size ∷ []) in
      (after.filter ≡ no_filter)
      × (last_asked none before.trail ≡ some no_filter)
      × (last_asked none after.trail ≡ some (shown pads.filters))
unfolding on_pads_event on_pad_page_event enter dispatch pads_state_reducer pads_effects
run-stale pads page page_index page_size = (refl, refl, refl)
