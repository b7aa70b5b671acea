-- ===== src/Database/Conns.antt =====
-- What becomes of the bounds on connections.
use experiment_go.Prelude.{ℕ, ◌+◌, ◌*◌, ◌^◌, ◌%◌, ◌≡◌, none, arith}
use experiment_go.Prelude.Int.{pos}
use experiment_go.Config.{Config, validate}
use experiment_go.Config.Validity.{IsValid, validate_settings_iff}
use experiment_go.Database.{PoolConfig, pool_config}

-- The configuration with another upper bound.
abbrev pub with_max_conns : ℕ → Config → Config
with_max_conns n c = record c { db = record c.db { max_conns = pos n } }

same_bits : (n k : ℕ) → (n + k * 2 ^ 32) % 2 ^ 32 ≡ n % 2 ^ 32
same_bits n k = omega arith

-- The validation of the settings puts no upper bound on DB_MAX_CONNS: if n connections are accepted,
-- so are n plus any multiple of 2^32, and the pool is given the same configuration, in int32, for both.
pub max_conns_wrap :
    (c : Config) (p : PoolConfig) (n k : ℕ)
    → validate (with_max_conns n c) ≡ none
    → (validate (with_max_conns (n + k * 2 ^ 32) c) ≡ none)
      × (pool_config (with_max_conns (n + k * 2 ^ 32) c).db p
          ≡ pool_config (with_max_conns n c).db p)
unfolding pool_config
max_conns_wrap c p n k h = (accepted, rw (same_bits n k))
  where
    valid : IsValid (with_max_conns n c)
    valid = (validate_settings_iff (with_max_conns n c)).0 h

    accepted : validate (with_max_conns (n + k * 2 ^ 32) c) ≡ none
    accepted = (validate_settings_iff (with_max_conns (n + k * 2 ^ 32) c)).1 (record {
      port = valid.port;
      database = valid.database;
      conns = omega (arith, valid.conns);
      format = valid.format;
      ingest = valid.ingest;
    })
