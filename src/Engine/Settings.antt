-- ===== src/Engine/Settings.antt =====
-- engine.go: the configuration and its defaults. Sizes and durations are 64-bit patterns.
use walspool.Base.{ℕ, ◌*◌, if◌then◌else◌, sle}

pub record Config : Type 0 where
  pub batch_size : ℕ
  pub flush_interval : ℕ
  pub initial_backoff : ℕ
  pub max_backoff : ℕ
  pub max_payload_size : ℕ
  pub max_capacity : ℕ

-- `time.Millisecond` in nanoseconds.
abbrev pub millisecond : ℕ
millisecond = 1_000_000

abbrev pub default_config : Config
default_config = record {
  batch_size = 100;
  flush_interval = 50 * millisecond;
  initial_backoff = 20 * millisecond;
  max_backoff = 1000 * millisecond;
  max_payload_size = 1024 * 1024;
  max_capacity = 10000;
}

-- What `New` puts in for sizes that are not positive.
pub with_defaults : Config → Config
with_defaults cfg = record cfg {
  batch_size = if sle cfg.batch_size 0 then 100 else cfg.batch_size;
  flush_interval = if sle cfg.flush_interval 0 then 50 * millisecond else cfg.flush_interval;
  max_payload_size = if sle cfg.max_payload_size 0 then 1024 * 1024 else cfg.max_payload_size;
}
