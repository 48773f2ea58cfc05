-- ===== src/Cli.antt =====
-- crates/node-cli/src/lib.rs: what the arguments of the command ask for. Reading a file, parsing YAML
-- and the user's data directory are outside the repository: parameters.
use essential_node.Types.BigBang.{BigBang}
use essential_node.Db.Pool.Open.{Config, Source, path, default_memory}
use essential_node.Node.{RunConfig}
use essential_node.Prelude.{
  ℕ, Bool, true, false, not, ◌&&◌, Option, none, some, List, [], ◌∷◌, if◌then◌else◌, Result, ok,
  err, ◌>>=◌, ok_or, Bytes,
}

pub data DbKind : Type 0 where
  memory_db persistent_db : DbKind

-- an address is kept as its text
pub record Args : Type 0 where
  pub bind_address : Bytes
  pub relayer_source_endpoint : Option Bytes
  pub disable_validation : Bool
  pub db : DbKind
  pub db_path : Option Bytes
  pub api_db_conn_limit : ℕ
  pub node_db_conn_limit : ℕ
  pub disable_tracing : Bool
  pub tcp_conn_limit : ℕ
  pub big_bang : Option Bytes

pub data CliError : Type 0 where
  no_data_dir read_failed yaml_failed : CliError

-- `dirs`, `std::fs::read_to_string`, `serde_yaml::from_str`, and the file of `BigBang::default`
pub record Host : Type 0 where
  pub data_dir : Option Bytes
  pub join_path : Bytes → List Bytes → Bytes
  pub read_to_string : Bytes → Option Bytes
  pub from_yaml : Bytes → Option BigBang
  pub default_big_bang : BigBang

-- "essential", "node" and "db.sqlite"
abbrev db_path_parts : List Bytes
db_path_parts =
    (101 ∷ 115 ∷ 115 ∷ 101 ∷ 110 ∷ 116 ∷ 105 ∷ 97 ∷ 108 ∷ [])
    ∷ (110 ∷ 111 ∷ 100 ∷ 101 ∷ [])
    ∷ (100 ∷ 98 ∷ 46 ∷ 115 ∷ 113 ∷ 108 ∷ 105 ∷ 116 ∷ 101 ∷ [])
    ∷ []

module _ (host : Host) where
  unfoldable pub default_db_path : Option Bytes
  default_db_path = elim host.data_dir [
    | none ↦ none
    | some dir ↦ some (host.join_path dir db_path_parts)
  ]

  -- the `match` on the kind of the database and its path
  unfoldable pub db_source : DbKind → Option Bytes → Result CliError Source
  unfolding default_db_path default_memory
  db_source memory_db none = ok default_memory
  db_source memory_db (some file) = ok (path file)
  db_source persistent_db (some file) = ok (path file)
  db_source persistent_db none = do file ← ok_or default_db_path no_data_dir; ok (path file)

  unfoldable pub node_db_conf_from_args : Args → Result CliError Config
  unfolding db_source
  node_db_conf_from_args args = do
    source ← db_source args.db args.db_path
    ok (record { conn_limit = args.node_db_conn_limit; source = source })

  unfoldable pub load_big_bang_or_default : Option Bytes → Result CliError BigBang
  load_big_bang_or_default none = ok host.default_big_bang
  load_big_bang_or_default (some file) = do
    text ← ok_or (host.read_to_string file) read_failed
    ok_or (host.from_yaml text) yaml_failed

-- the configuration of the API's own pool
unfoldable pub api_db_conf : Args → Config → Config
api_db_conf args node_db_conf = record node_db_conf { conn_limit = args.api_db_conn_limit }

unfoldable pub run_conf : Args → RunConfig
run_conf args = record {
  relayer_source_endpoint = args.relayer_source_endpoint;
  run_validation = not args.disable_validation;
}

abbrev is_none : {A : Type 0} → Option A → Bool
is_none none = true
is_none (some a) = false

-- What `node_future` completes with, of the result of the handle's `join`: `none` is
-- `future::pending`. The join is not awaited where no stream runs.
unfoldable pub node_future :
    {E : Type 0} → Args → Result E (Unit {0}) → Option (Result E (Unit {0}))
node_future args (ok u) = if is_none args.relayer_source_endpoint then none else some (ok tt)
node_future args (err e) =
    if is_none args.relayer_source_endpoint && args.disable_validation then none else some (err e)
