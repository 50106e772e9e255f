-- ===== src/Wal/Steps.antt =====
-- A log at work: calls of its operations in any order, with the buffered writer free to write any part
-- of its buffer to the file at any time.
use bittice.Prelude.{ℕ, ◌<◌, ◌≡◌, some, none, List, [], ◌∷◌, ◌++◌, length, take, drop, ok}
use bittice.Snapshot.Codec.{Bincode}
use bittice.Wal.{Wal, WalOperation, open_wal, append, flush_writes, truncate, capacity}

-- bincode serializes into a vector, which is smaller than `isize::MAX` bytes.
pub record IsVec (codec : Bincode WalOperation) : Type 0 where
  pub small :
      (op : WalOperation) (bytes : List ℕ)
      → codec.serialize op ≡ some bytes
      → length bytes < capacity

-- The buffered writer makes room: the first `n` bytes of its buffer go to the file.
unfoldable pub spill : ℕ → Wal → Wal
spill n w = record { buffer = drop n w.buffer; file = w.file ++ take n w.buffer }

-- A step from a log to a log, with the operations appended since the last truncation.
pub data Step (codec : Bincode WalOperation)
    : Wal → List WalOperation → Wal → List WalOperation → Type 0 where
  appended :
      (w w' : Wal) (ops : List WalOperation) (op : WalOperation)
      → append codec w op ≡ ok w'
      → Step codec w ops w' (ops ++ op ∷ [])
  spilled : (w : Wal) (ops : List WalOperation) (n : ℕ) → Step codec w ops (spill n w) ops
  flushed : (w : Wal) (ops : List WalOperation) → Step codec w ops (flush_writes w) ops
  truncated : (w : Wal) (ops : List WalOperation) → Step codec w ops (truncate w) []

-- The logs that a sequence of steps from a new file leads to.
pub data Reach (codec : Bincode WalOperation) : Wal → List WalOperation → Type 0 where
  opened : Reach codec (open_wal none) []
  next :
      (w w' : Wal) (ops ops' : List WalOperation)
      → Reach codec w ops
      → Step codec w ops w' ops'
      → Reach codec w' ops'
