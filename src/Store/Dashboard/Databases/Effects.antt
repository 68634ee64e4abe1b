-- ===== src/Store/Dashboard/Databases/Effects.antt =====
-- The effects of the databases (store/dashboard/stores/databases/databases.effect.ts).
use editor_sh.Prelude.{String, Option, none, some, List, [], ◌∷◌, map}
use editor_sh.Models.Engine.{get_database_engine_by_id}
use editor_sh.Service.Api.{
  word, number, DatabaseBody, databases_query_all, database_save, database_delete,
}
use editor_sh.Store.Common.{CommonAction}
use editor_sh.Store.Dashboard.Databases.{
  Database, DatabasesAction, query_all, query_all_success, save, save_success, delete,
  delete_success,
}
use editor_sh.Store.Action.{WebsiteAction, Command}

abbrev snack_bar : String → Command
snack_bar text = Command.dispatch (
    WebsiteAction.common
      (CommonAction.snack_bar_message (record { message = some text; action = none })))

-- The body of a save, where `none` is the TypeError of a database without an engine.
unfoldable pub save_body : Database → Option DatabaseBody
save_body d = elim d.engine [
  | none ↦ none
  | some engine ↦ some (record {
    id = d.id;
    title = d.title;
    status = d.status;
    engine = engine.id;
    description = d.description;
    script = d.script;
    summary = d.summary;
  })
]

-- `new Database({ ...item, status, engine })`, for an item of a response
unfoldable pub database_of_item : DatabaseBody → Database
database_of_item item = record {
  id = item.id;
  title = item.title;
  status = item.status;
  engine = get_database_engine_by_id item.engine;
  description = item.description;
  script = item.script;
  summary = item.summary;
}

abbrev save_command : Option DatabaseBody → Command
save_command none = Command.crash
save_command (some body) = Command.rest (database_save body)

unfoldable pub databases_effects : DatabasesAction → List Command
unfolding save_body
databases_effects query_all = Command.rest databases_query_all ∷ []
databases_effects (save database) = save_command (save_body database) ∷ []
databases_effects (save_success database) =
    Command.navigate (word "/dashboard/databases/show" ∷ number database.id ∷ [])
    ∷ snack_bar "Database Saved"
    ∷ []
databases_effects (delete database) = Command.rest (database_delete database.id) ∷ []
databases_effects (delete_success id) =
    Command.navigate (word "/dashboard/databases" ∷ []) ∷ snack_bar "Database Deleted" ∷ []
databases_effects _ = []

unfoldable pub query_all_answer : List DatabaseBody → DatabasesAction
query_all_answer items = query_all_success (some (map database_of_item items))

unfoldable pub save_answer : DatabaseBody → DatabasesAction
save_answer item = save_success (database_of_item item)
