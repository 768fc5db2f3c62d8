-- ===== src/Application/Engine.antt =====
-- app/db/engine.py: the database's engine. Making the directory and the engine is the libraries' part.
use ai_serving_backend.Prelude.{
  String, Bool, not, ◌&&◌, Option, none, some, List, [], ◌∷◌, str_eq, if◌then◌else◌,
}
use ai_serving_backend.Prelude.Text.Lines.{startswith, removeprefix}

abbrev sqlite_prefix : String
sqlite_prefix = "sqlite+aiosqlite:///"

abbrev memory_url : String
memory_url = "sqlite+aiosqlite:///:memory:"

-- ensure_sqlite_parent_dir: the file whose directory is made, if there is one
unfoldable pub sqlite_file : String → Option String
unfolding startswith removeprefix
sqlite_file database_url =
    let path = removeprefix database_url sqlite_prefix in
    if not (startswith database_url sqlite_prefix)
    then none
    else if str_eq path ":memory:"
    then none
    else some path

pub record EngineOptions : Type 0 where
  pub url : String
  -- poolclass=StaticPool: one connection for all
  pub static_pool : Bool
  -- what each new connection executes
  pub on_connect : List String

-- create_engine
unfoldable pub create_engine : String → EngineOptions
unfolding startswith
create_engine database_url = record {
  url = database_url;
  static_pool = str_eq database_url memory_url;
  on_connect =
      if startswith database_url sqlite_prefix && not (str_eq database_url memory_url)
      then "PRAGMA journal_mode=WAL" ∷ "PRAGMA busy_timeout=5000" ∷ "PRAGMA synchronous=NORMAL" ∷ []
      else [];
}
