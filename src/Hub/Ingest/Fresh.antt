-- ===== src/Hub/Ingest/Fresh.antt =====
-- NewMemoryLogHub gives a hub that keeps the invariant.
use walspool.Base.{
  ℕ, zero, suc, ◌<◌, ◌^◌, ◌≡◌, ◌==◌, if◌then◌else◌, [], length, replicate, lookup, refl, ap, arith,
}
use walspool.Hub.Ring.{slots}
use walspool.Hub.State.{new_memory_log_hub, capacity_of}
use walspool.Hub.Ingest.Holding.{holding}
use walspool.Hub.Ingest.Outcome.{Holds}

length-replicate {ℓ} : {A : Type ℓ} (n : ℕ) (a : A) → length (replicate n a) ≡ n
length-replicate zero a = refl
length-replicate (suc n) a = ap suc (length-replicate n a)

counted :
    (capacity : ℕ)
    → capacity < 2 ^ 31
    → capacity_of capacity ≡ (if capacity == 0 then 50000 else capacity)
counted capacity h = ground arith

room : (capacity : ℕ) → capacity < 2 ^ 31 → 0 < capacity_of capacity
room capacity h = ground arith

within : (capacity : ℕ) → capacity < 2 ^ 31 → capacity_of capacity < 2 ^ 31
within capacity h = ground arith

-- A new hub of fewer than 2 ^ 31 slots keeps the invariant, holds nothing, and has the capacity
-- asked for, or 50000 where that is zero.
pub new-Holds :
    (capacity : ℕ)
    → capacity < 2 ^ 31
    → Holds (if capacity == 0 then 50000 else capacity) [] (new_memory_log_hub capacity)
unfolding new_memory_log_hub slots lookup holding
new-Holds capacity small = (
  record {
    some_room = room capacity small;
    small = within capacity small;
    fits = omega arith;
    head_within = room capacity small;
    sized = length-replicate _ _;
    linked = length-replicate _ _;
    filled = tt;
    indexed = (λ k ne. refl, λ k ne. refl);
  },
  refl,
  counted capacity small,
)
