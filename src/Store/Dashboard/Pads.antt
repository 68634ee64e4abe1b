-- ===== src/Store/Dashboard/Pads.antt =====
-- The pads (store/dashboard/stores/pads): model, actions, reducer.
pub mod Effects
pub mod Laws
use editor_sh.Prelude.{ℕ, String, Option, none, or_else, List, []}
use editor_sh.Store.Common.{ApiErrorStateParams}

-- `undefined` and `null` are not told apart.
pub record PadsFilters : Type 0 where
  pub search : Option String
  pub status : Option String
  pub days : Option String

abbrev pub no_filters : PadsFilters
no_filters = record { search = none; status = none; days = none }

pub data PadStatus : Type 0 where
  unused progressing ended : PadStatus

pub record Pad : Type 0 where
  pub id : ℕ
  pub hash : String
  pub title : String
  pub status : PadStatus
  pub creator : String
  pub language : String
  pub create_time : Option ℕ
  pub update_time : Option ℕ

pub record PadsPage : Type 0 where
  pub pads : Option (List Pad)
  pub page_index : Option ℕ
  pub page_size : Option ℕ
  pub total : Option ℕ

pub data PadsAction : Type 0 where
  query_all : ℕ → ℕ → PadsFilters → PadsAction
  query_all_success : PadsPage → PadsAction
  query_all_failure : Option ApiErrorStateParams → PadsAction
  filter_change : Option PadsFilters → PadsAction
  page_change : ℕ → ℕ → PadsAction
  create_pad : Option String → Option String → PadsAction
  create_pad_success : Pad → PadsAction
  create_pad_failure : Option ApiErrorStateParams → PadsAction
  goto_pad_hash : String → PadsAction

pub record PadsState : Type 0 where
  pub pads : List Pad
  pub page_size : ℕ
  pub page_index : ℕ
  pub total : ℕ
  pub filters : PadsFilters

abbrev pub initial_pads_state : PadsState
initial_pads_state = record {
  pads = [];
  page_size = 0;
  page_index = 0;
  total = 0;
  filters = no_filters;
}

unfoldable pub pads_state_reducer : PadsState → PadsAction → PadsState
pads_state_reducer state (query_all_success payload) = record state {
  pads = or_else payload.pads [];
  page_size = or_else payload.page_size 0;
  page_index = or_else payload.page_index 0;
  total = or_else payload.total 0;
}
pads_state_reducer state (filter_change payload) = record state {
  filters = or_else payload no_filters;
}
pads_state_reducer state (page_change page_index page_size) = record state {
  page_index = page_index;
  page_size = page_size;
}
pads_state_reducer state _ = state
