-- ===== src/Ports.antt =====
-- ports.go: the interfaces between the spooler, its storage, its sink and its observers. A method
-- takes the state of the object behind the interface and returns its result with the new state.
use walspool.Base.{ℕ, ◌<◌, ◌≤◌, ◌≡◌, ◌⊎◌, List, [], ◌∷◌, ◌++◌, Option, none, some, take, max_batch}
use walspool.Errors.{Error, Result, ok, err}
use walspool.Record.{Record}

pub record StorageEngine : Type 1 where
  pub State : Type 0
  pub append : Record → State → Result ℕ × State
  pub read_batch : ℕ → State → Result (List Record) × State
  pub commit : ℕ → State → Result (Unit {0}) × State
  pub uncommitted_count : State → Result ℕ × State
  pub close : State → Result (Unit {0}) × State
  -- The optional method that `New` looks for.
  pub last_id : Option (State → ℕ)

-- `none` is Go's `nil` error.
pub record Sink : Type 1 where
  pub State : Type 0
  pub deliver : List Record → State → Option Error × State

pub record IngestionObserver : Type 1 where
  pub State : Type 0
  pub on_ingested : Record → State → State

-- What an open storage engine promises: it is a queue of records. A batch is a prefix of what is
-- pending, not empty unless nothing is pending, a commit drops the records up to the one named,
-- and an append puts the record behind all others or fails and changes nothing.
pub record IsQueue (S : StorageEngine) : Type 1 where
  pub IsOpen : S.State → Type 0
  pub HasRoom : Record → S.State → Type 0
  -- What a read gives of a record that was stored: the checksum may be filled in.
  pub read_back : Record → Record
  pub pending : S.State → List Record
  pub read_pending :
      (n : ℕ) (s : S.State)
      → 0 < n
      → n ≤ max_batch
      → IsOpen s
      → ((k : ℕ) × (0 < k) × (k ≤ n) × ((S.read_batch n s).0 ≡ ok (take k (pending s))))
        × (pending (S.read_batch n s).1 ≡ pending s)
        × IsOpen (S.read_batch n s).1
  pub commit_pending :
      (s : S.State) (xs : List Record) (r : Record) (ys : List Record)
      → IsOpen s
      → pending s ≡ xs ++ (r ∷ ys)
      → ((S.commit r.offset s).0 ≡ ok tt)
        × (pending (S.commit r.offset s).1 ≡ ys)
        × IsOpen (S.commit r.offset s).1
  pub append_pending :
      (r : Record) (s : S.State)
      → IsOpen s
      → HasRoom r s
      → ((n : ℕ) × ((S.append r s).0 ≡ ok n)
          × (pending (S.append r s).1 ≡ pending s ++ (read_back (record r { offset = n }) ∷ []))
          × IsOpen (S.append r s).1)
        ⊎ ((e : Error) × ((S.append r s).0 ≡ err e) × ((S.append r s).1 ≡ s))

-- A sink with a record of what it took: it takes the whole of a batch, or it fails and takes none.
pub record IsRecorded (K : Sink) : Type 1 where
  pub taken : K.State → List Record
  pub deliver_taken :
      (b : List Record) (k : K.State)
      → (((K.deliver b k).0 ≡ none) × (taken (K.deliver b k).1 ≡ taken k ++ b))
        ⊎ ((e : Error) × ((K.deliver b k).0 ≡ some e) × (taken (K.deliver b k).1 ≡ taken k))
