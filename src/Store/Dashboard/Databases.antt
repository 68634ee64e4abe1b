-- ===== src/Store/Dashboard/Databases.antt =====
-- The databases (store/dashboard/stores/databases): model, actions, reducer.
pub mod Effects
pub mod Laws
use editor_sh.Prelude.{ℕ, String, Option, or_else, List, [], foldl}
use editor_sh.Prelude.Dict.{Dict, insert, erase}
use editor_sh.Models.Engine.{DatabaseEngine}
use editor_sh.Store.Common.{ApiErrorStateParams}

pub data DatabaseStatus : Type 0 where
  non_verified verified : DatabaseStatus

pub record Database : Type 0 where
  pub id : ℕ
  pub title : String
  pub status : Option DatabaseStatus
  pub engine : Option DatabaseEngine
  pub description : String
  pub script : String
  pub summary : String

pub data DatabasesAction : Type 0 where
  query_all : DatabasesAction
  query_all_success : Option (List Database) → DatabasesAction
  query_all_failure : ApiErrorStateParams → DatabasesAction
  save : Database → DatabasesAction
  save_success : Database → DatabasesAction
  save_failure : ApiErrorStateParams → DatabasesAction
  delete : Database → DatabasesAction
  delete_success : ℕ → DatabasesAction
  delete_failure : ApiErrorStateParams → DatabasesAction

pub record DatabasesState : Type 0 where
  pub databases : Dict Database

abbrev pub initial_databases_state : DatabasesState
initial_databases_state = record { databases = [] }

unfoldable pub add_or_update_database : Database → DatabasesState → DatabasesState
add_or_update_database database state = record {
  databases = insert database.id database state.databases;
}

abbrev pub set_database : Dict Database → Database → Dict Database
set_database d item = insert item.id item d

unfoldable pub databases_map : List Database → Dict Database
databases_map = foldl set_database []

unfoldable pub databases_state_reducer : DatabasesState → DatabasesAction → DatabasesState
unfolding add_or_update_database databases_map
databases_state_reducer state (query_all_success databases) = record {
  databases = databases_map (or_else databases []);
}
databases_state_reducer state (save_success database) = add_or_update_database database state
databases_state_reducer state (delete_success database_id) = record {
  databases = erase database_id state.databases;
}
databases_state_reducer state _ = state
