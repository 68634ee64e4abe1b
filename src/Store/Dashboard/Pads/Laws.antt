-- ===== src/Store/Dashboard/Pads/Laws.antt =====
-- The list of pads: what the page asks for, and what it shows after the answer.
use editor_sh.Prelude.{
  ℕ, Option, none, some, or_else, List, [], ◌∷◌, ◌≡◌, refl, ◌⊎◌, inl, inr, arith, Option-cases,
}
use editor_sh.Service.Graphql.{
  GraphqlCall, Answer, reply, pads_query_all_outcome, read_checked, read_value,
}
use editor_sh.Store.Dashboard.Pads.{
  PadsState, PadsAction, PadsFilters, PadsPage, filter_change, page_change, pads_state_reducer,
  no_filters,
}
use editor_sh.Store.Dashboard.Pads.Effects.{pads_effects, query_all_answer}
use editor_sh.Store.Action.{Command}

-- The state after an action, and what its effects send.
abbrev pub ask : PadsState → PadsAction → PadsState × List Command
ask state action = let after = pads_state_reducer state action in (after, pads_effects after action)

-- A change of the filters asks for the first page of the old size, a change of the page for that
-- page, and both with the filters that the state has from then on; the pads, and after a change of
-- the filters also the page, stay as they were until the answer.
pub ask_lem :
    (state : PadsState) (filters : Option PadsFilters) (page_index page_size : ℕ)
    → let (filtered, calls) = ask state (filter_change filters) in
      let (paged, calls') = ask state (page_change page_index page_size) in
      (calls ≡ Command.graphql (GraphqlCall.pads_query_all 0 state.page_size filtered.filters) ∷ [])
      × (filtered ≡ record state { filters = or_else filters no_filters })
      × (calls'
          ≡ Command.graphql (GraphqlCall.pads_query_all page_index page_size paged.filters) ∷ [])
      × (paged ≡ record state { page_index = page_index; page_size = page_size })
unfolding pads_state_reducer pads_effects
ask_lem state filters page_index page_size = (refl, refl, refl, refl)

-- The state after an answer: with a page and no errors it is the page's, with the fields that it
-- lacks empty, and its filters are kept; after any other answer it is as it was.
pub pads_state_reducer-query_all_answer :
    (state : PadsState) (answer : Answer PadsPage)
    → let after = pads_state_reducer state (query_all_answer (pads_query_all_outcome answer)) in
      ((page : PadsPage) × (answer ≡ reply (record { value = some page; errors = none }))
        × (after ≡ record {
          pads = or_else page.pads [];
          page_size = or_else page.page_size 0;
          page_index = or_else page.page_index 0;
          total = or_else page.total 0;
          filters = state.filters;
        }))
      ⊎ (after ≡ state)
unfolding pads_state_reducer pads_query_all_outcome read_checked read_value query_all_answer
pads_state_reducer-query_all_answer state (Answer.threw e) = inr refl
pads_state_reducer-query_all_answer state (reply r) = elim (Option-cases r.errors) [
  | inr (errors, e) ↦ inr (rw e refl)
  | inl e ↦ elim (Option-cases r.value) [
    | inl v ↦ inr (rw (e, v) refl)
    | inr (page, v) ↦ inl (page, ground arith, rw (e, v) refl)
  ]
]
