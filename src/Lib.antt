-- ===== src/Lib.antt =====
-- walspool: a durable log spooler in Go. This library models its core packages and proves what
-- they promise.
--
-- Parts and files (paths from the repository's root):
--   Errors      errors.go: sentinels, wrapping, errors.Is and errors.As, IsTransient.
--   Record      record.go: Record, MarshalBinary, UnmarshalBinary. Endian, Layout, RoundTrip, Decode
--               and Exact are the proofs, by what they prove.
--   Ports       ports.go: StorageEngine, Sink and IngestionObserver as records of operations, with
--               the contract IsQueue that the dispatcher relies on.
--   Memory      storage_memory.go: MemoryStorageEngine, which meets IsQueue (Memory/Queue).
--   Engine      engine.go: Config and its defaults (Settings), calculateNextBackoff (Backoff),
--               Enqueue, drainPendingBatches, drainAll, Close; runDispatcher and Flush (Dispatcher).
--   Hub         hub.go: MemoryLogHub. Index is the doubly linked index by trace id and by service
--               (linkTrace, unlinkTrace and their twins for the service), Ring its circular buffer,
--               State the struct and NewMemoryLogHub, Ingest, Query, Subscribe (with cancel, Close
--               and Stats) and Payload (OnIngested and the scanner) its methods.
--   Storage     storage_file.go: recoverSegment on the bytes of one file (Recovery), and
--               FileStorageEngine. Files is the directory, State the struct with its options and
--               the calls that may fail, Writer the bufio.Writer, Operations Append with
--               rotateSegment and rollbackTo, Reading Flush, ReadBatch, UncommittedCount and
--               LastID, Commits Commit, pruneCommittedSegments and Close, Opening the
--               constructors and the recovery of a directory. Invariant, over Index, says what
--               an open engine keeps to. Writer/Moves, Appending, Rollback, Restored and Rotation
--               are the lemmas on single steps; Keeps, Appends, Reads, PruneLoop (over Segments and
--               Prunes), Checkpoint, Reopens, Crash, Closes and Runs the theorems on whole calls
--               and on sequences of them; Queue is the contract IsQueue.
--   Client      cmd/walspool/security.go: BoundedLineReader (Lines; Whole is the proof) and
--               SanitizeTerminal with its UTF-8 (Sanitize; Decoding, Safe and Unchanged are
--               the proofs).
--   Sidecar     cmd/sidecar/main.go: handleEnqueueBatch with enrichPayloadMetadata, over any spooler
--               (Batch; Handles is the proof).
--
-- How parts meet: Engine takes its storage, sink and observers as interfaces of Ports; the theorems
-- of Engine hold for any storage that is a queue, and Memory/Queue and Storage/Queue show that the
-- in-memory engine is one, and the file engine where no call of the operating system fails. Stored
-- bytes are those of Record. Hub is an observer that the engine shows each stored record: its
-- OnIngested turns a record into an entry and calls Ingest.
--
-- Conventions. A byte string is a list of numbers. An int, int64, uint64 or time.Duration is its
-- 64-bit pattern, and arithmetic wraps by % 2 ^ 64; signed comparisons shift by 2 ^ 63. A timestamp
-- is the pattern of UnixNano. A method that changes its object returns the new object beside its
-- result. Errors keep their wrapping and lose their text. A run-time panic is the error panic.
--
-- Files. A method of the file engine that makes calls of the operating system takes Faults, which
-- say which of its calls fail and how many bytes a write that fails has written; the calls are told
-- apart by what they are for. A read that fails in recovery ends the scan as the end of the file
-- does; a walFile whose Close failed in a rotation stays in the engine, and every later call on it
-- fails. A file is a list of bytes that a later call reads as it was written: a sync only succeeds
-- or fails, and what a crash leaves is a hypothesis of the theorem on it.
--
-- Loops that sleep take one Turn or Event for each round: what the context says, what ends the
-- wait and what the random source draws. A loop whose rounds are used up has outcome none; the
-- theorem drain_all_delivers shows that one round more than there are pending records is enough.
-- Query's walk along a chain takes one round more than the hub has entries, and the payload
-- scanner, the scan of a segment, ReadLine and SanitizeTerminal one more than there are bytes;
-- pruning takes one round for each record. The theorems on them say that this is enough.
-- No other loop takes fuel. Log positions are assumed below 2 ^ 62 and batch sizes at most 2 ^ 32,
-- so that no index of the in-memory engine overflows; a hub has fewer than 2 ^ 31 slots, so that its
-- int32 cursors are exact.
--
-- Parameters stand for package strings on Unicode text, json.Valid, json.Marshal of a string or a
-- map, the decoder of a JSON object, strconv.Unquote and bytes.TrimSpace. The UTF-8 decoder of
-- SanitizeTerminal and the ReadLine of bufio are written out. Distribution follows the locked part
-- of Ingest as one more step of the same call.
--
-- Not modelled: syncs of a directory, whose result the code ignores; the widths of the names of
-- segment files (a base is a number of at most twelve digits); logging, goroutine and lock
-- primitives (each operation under a lock is one step), wall-clock time, the other
-- handlers of the HTTP sidecar and its HTTP sink, the other command line tools, and the examples.
pub mod Base
pub mod Errors
pub mod Record
pub mod Ports
pub mod Memory
pub mod Engine
pub mod Hub
pub mod Storage
pub mod Client
pub mod Sidecar
