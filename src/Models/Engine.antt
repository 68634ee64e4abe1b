-- ===== src/Models/Engine.antt =====
-- The database engines (shared/models/database-engines.model.ts).
use editor_sh.Prelude.{String, Option, List, [], ◌∷◌, find?, str_eq}

pub record DatabaseEngine : Type 0 where
  pub id : String
  pub name : String

abbrev pub mysql : DatabaseEngine
mysql = record { id = "mysql"; name = "MySQL" }

abbrev pub postgresql : DatabaseEngine
postgresql = record { id = "postgresql"; name = "PostgreSQL" }

abbrev pub database_engine_list : List DatabaseEngine
database_engine_list = mysql ∷ postgresql ∷ []

-- `DatabaseEngines.getDatabaseEngineById`
unfoldable pub get_database_engine_by_id : String → Option DatabaseEngine
get_database_engine_by_id id = find? (λ it. str_eq it.id id) database_engine_list
