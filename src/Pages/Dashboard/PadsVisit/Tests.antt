-- ===== src/Pages/Dashboard/PadsVisit/Tests.antt =====
-- Visits to the pads, one of them after a visit with a filter.
use editor_sh.Prelude.{none, some, List, [], ◌∷◌, ◌≡◌, refl}
use editor_sh.Store.Dashboard.Pads.{PadsState, PadsPage, initial_pads_state, no_filters}
use editor_sh.Pages.Dashboard.PadsVisit.{
  no_filter, PadsEvent, search_typed, days_selected, page_selected, answered, enter, run,
}
use editor_sh.Pages.Dashboard.PadsVisit.Asked.{last_asked, shown, IsAsked, run-IsAsked, run-stale}

abbrev page : PadsPage
page = record { pads = none; page_index = some 0; page_size = some 5; total = some 12 }

abbrev events : List PadsEvent
events =
    answered page ∷ search_typed "java" ∷ days_selected "7" ∷ answered page ∷ page_selected 1 5 ∷ []

run-IsAsked_example : IsAsked (run (enter initial_pads_state) events)
run-IsAsked_example = run-IsAsked initial_pads_state events refl

abbrev visited : PadsState
visited = record initial_pads_state { filters = record no_filters { search = some "java" } }

run-stale_example :
    let before = run (enter visited) (answered page ∷ []) in
    let after = run (enter visited) (answered page ∷ page_selected 1 5 ∷ []) in
    (after.filter ≡ no_filter)
    × (last_asked none before.trail ≡ some no_filter)
    × (last_asked none after.trail ≡ some (shown visited.filters))
run-stale_example = run-stale visited page 1 5
