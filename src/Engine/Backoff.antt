-- ===== src/Engine/Backoff.antt =====
-- engine.go: `calculateNextBackoff`. Durations are int64 bit patterns; `int64n n` is what
-- `rand.Int64N(n)` draws, a number below `n`.
use walspool.Base.{
  leb, ℕ, ◌*◌, ◌≤◌, ◌<◌, ◌^◌, ◌≡◌, if◌then◌else◌, sle, slt, add64, sub64, mul64, max_int, arith,
}
use walspool.Engine.Settings.{Config, default_config, millisecond}

-- `cfg.InitialBackoff`, or the default where it is not positive.
pub initial_of : Config → ℕ
initial_of cfg =
    if sle cfg.initial_backoff 0
    then if sle default_config.initial_backoff 0
      then millisecond
      else default_config.initial_backoff
    else cfg.initial_backoff

pub max_of : Config → ℕ
max_of cfg = if slt cfg.max_backoff (initial_of cfg) then initial_of cfg else cfg.max_backoff

-- The upper end of the jitter: three times the current delay, with the overflow check.
pub high_of : ℕ → ℕ → ℕ → ℕ
high_of initial max_backoff current =
    let high = mul64 current 3 in
    let high' = if slt high current then max_backoff else high in
    if slt high' initial then initial else high'

pub sleep_of : (ℕ → ℕ) → ℕ → ℕ → ℕ
sleep_of int64n initial high =
    let delta = sub64 high initial in
    if sle delta 0 then initial else add64 initial (int64n (add64 delta 1))

pub calculate_next_backoff : Config → (ℕ → ℕ) → ℕ → ℕ
calculate_next_backoff cfg int64n current =
    let initial = initial_of cfg in
    let max_backoff = max_of cfg in
    let current' = if slt current initial then initial else current in
    let sleep = sleep_of int64n initial (high_of initial max_backoff current') in
    if slt max_backoff sleep then max_backoff else sleep

initial_of_pos :
    (cfg : Config)
    → cfg.initial_backoff < 2 ^ 64
    → (0 < initial_of cfg) × (initial_of cfg ≤ max_int)
unfolding initial_of
initial_of_pos cfg h = ground arith

-- The jitter's upper end never wraps: it is three times the current delay, or the maximum where
-- that does not fit an int64, and at least the initial delay.
pub high_of_lem :
    (initial max_backoff current : ℕ)
    → initial ≤ current
    → initial ≤ max_backoff
    → max_backoff ≤ max_int
    → current ≤ max_int
    → high_of initial max_backoff current
      ≡ (if leb (3 * current) max_int then 3 * current else max_backoff)
unfolding high_of
high_of_lem initial max_backoff current a b c d = ground arith

high_of_bounds :
    (initial max_backoff current : ℕ)
    → initial ≤ current
    → initial ≤ max_backoff
    → max_backoff ≤ max_int
    → current ≤ max_int
    → (initial ≤ high_of initial max_backoff current)
      × (high_of initial max_backoff current ≤ max_int)
      × (3 * current ≤ max_int → high_of initial max_backoff current ≡ 3 * current)
high_of_bounds initial max_backoff current a b c d =
    ground (arith, high_of_lem initial max_backoff current)

sleep_of_bounds :
    (int64n : ℕ → ℕ) (initial high : ℕ)
    → 0 < initial
    → initial ≤ high
    → high ≤ max_int
    → ((n : ℕ) → 0 < n → int64n n < n)
    → (initial ≤ sleep_of int64n initial high) × (sleep_of int64n initial high ≤ high)
unfolding sleep_of
sleep_of_bounds int64n initial high pos le small draws =
    ground (arith, draws (add64 (sub64 high initial) 1))

max_of_bounds :
    (cfg : Config)
    → cfg.initial_backoff < 2 ^ 64
    → cfg.max_backoff < 2 ^ 64
    → (initial_of cfg ≤ max_of cfg) × (max_of cfg ≤ max_int)
unfolding max_of
max_of_bounds cfg h k = ground (arith, initial_of_pos cfg h)

raise_bounds :
    (initial current : ℕ)
    → initial ≤ max_int
    → current < 2 ^ 64
    → (initial ≤ (if slt current initial then initial else current))
      × ((if slt current initial then initial else current) ≤ max_int)
      × (initial ≤ current
          → current ≤ max_int
          → (if slt current initial then initial else current) ≡ current)
raise_bounds initial current h k = ground arith

cap_bounds :
    (lo hi sleep : ℕ)
    → lo ≤ hi
    → hi ≤ max_int
    → lo ≤ sleep
    → sleep ≤ max_int
    → (lo ≤ (if slt hi sleep then hi else sleep))
      × ((if slt hi sleep then hi else sleep) ≤ hi)
      × ((if slt hi sleep then hi else sleep) ≤ sleep)
cap_bounds lo hi sleep a b c d = ground arith

-- For configured delays and a current delay that are int64 patterns, the next delay is a positive
-- duration between the initial delay and the maximum (which is at least the initial delay and fits
-- an int64), and at most three times the current delay where that fits an int64 and the current
-- delay is not below the initial one. The draw is assumed to be below its argument.
pub calculate_next_backoff_bounds :
    (cfg : Config) (int64n : ℕ → ℕ) (current : ℕ)
    → cfg.initial_backoff < 2 ^ 64
    → cfg.max_backoff < 2 ^ 64
    → current < 2 ^ 64
    → ((n : ℕ) → 0 < n → int64n n < n)
    → (0 < initial_of cfg)
      × (initial_of cfg ≤ calculate_next_backoff cfg int64n current)
      × (calculate_next_backoff cfg int64n current ≤ max_of cfg)
      × (max_of cfg ≤ max_int)
      × (initial_of cfg ≤ current
          → 3 * current ≤ max_int
          → calculate_next_backoff cfg int64n current ≤ 3 * current)
unfolding calculate_next_backoff
calculate_next_backoff_bounds cfg int64n current h k c draws =
    let initial = initial_of cfg in
    let max_backoff = max_of cfg in
    let current' : ℕ = if slt current initial then initial else current in
    let high = high_of initial max_backoff current' in
    let (pos, small) = initial_of_pos cfg h in
    let (le_max, max_small) = max_of_bounds cfg h k in
    let (raised, raised_small, same) = raise_bounds initial current small c in
    let (high_lo, high_hi, high_eq) =
      high_of_bounds initial max_backoff current' raised le_max max_small raised_small in
    let (sleep_lo, sleep_hi) = sleep_of_bounds int64n initial high pos high_lo high_hi draws in
    let (lo, hi, le) =
      cap_bounds initial max_backoff (sleep_of int64n initial high) le_max max_small sleep_lo
        (omega arith) in
    (
      pos,
      lo,
      hi,
      max_small,
      λ a b.
          let e = same a (omega arith) in
          let f = high_eq (rw e b) in omega (arith, le, sleep_hi, e, f),
    )
