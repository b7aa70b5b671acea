-- ===== src/Database.antt =====
-- internal/database/postgres.go. The client pgxpool is the parameter `PoolLibrary`.
pub mod Conns
use experiment_go.Prelude.{String, Option, none, some, [], ◌∷◌}
use experiment_go.Prelude.Int.{ℤ, pos, ◌+ℤ◌, wrap32, wrap64}
use experiment_go.Prelude.Errors.{GoError, Result, ok, err, lit, wrap_error}
use experiment_go.Config.{Db}

-- pgxpool.Config: the fields that NewPool sets, and the rest of what the DSN says.
pub record PoolConfig : Type 0 where
  pub target : String
  pub max_conns : ℤ
  pub min_conns : ℤ
  pub max_conn_lifetime : ℤ
  pub connect_timeout : ℤ

pub record PoolLibrary (W : Type 0) : Type 0 where
  pub parse_config : String → Result PoolConfig
  pub new_with_config : PoolConfig → W → Option GoError × W
  pub ping : ℤ → W → Option GoError × W
  pub close : W → W

-- The configuration as NewPool changes it.
unfoldable pub pool_config : Db → PoolConfig → PoolConfig
pool_config db p = record p {
  max_conns = wrap32 db.max_conns;
  min_conns = wrap32 db.min_conns;
  max_conn_lifetime = db.max_conn_lifetime;
  connect_timeout = db.connect_timeout;
}

module _ {W : Type 0} (lib : PoolLibrary W) (db : Db) where
  abbrev pub pinged : Option GoError × W → Option GoError × W
  pinged (none, w) = (none, w)
  pinged (some e, w) = (some (wrap_error (lit "ping database" ∷ []) e), lib.close w)

  abbrev pub created : Option GoError × W → Option GoError × W
  created (some e, w) = (some (wrap_error (lit "create connection pool" ∷ []) e), w)
  created (none, w) = pinged (lib.ping (wrap64 (db.connect_timeout +ℤ pos 1_000_000_000)) w)

  abbrev pub parsed_config : Result PoolConfig → W → Option GoError × W
  parsed_config (err e) w = (some (wrap_error (lit "parse database dsn" ∷ []) e), w)
  parsed_config (ok p) w = created (lib.new_with_config (pool_config db p) w)

  -- NewPool: with no error, the pool is open in the world behind it.
  unfoldable pub new_pool : W → Option GoError × W
  unfolding pool_config
  new_pool w = parsed_config (lib.parse_config db.dsn) w
