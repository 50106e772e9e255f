-- ===== src/Wal.antt =====
-- The write-ahead log (src/core/storage/wal.rs): records behind an eight-byte length, written through a
-- buffer, and replayed from the file when a table is opened.
pub mod Steps
pub mod Replay
pub mod Crash
use bittice.Prelude.{
  Str, ℕ, zero, suc, ◌%◌, ◌^◌, ◌≡◌, ◌<◌, Option, none, some, List, [], ◌∷◌, ◌++◌, length, take,
  drop, ltb, not, if◌then◌else◌, Result, ok, err, panic, ok_or, ◌>>=◌,
}
use bittice.Bytes.{u64_mod, to_le_bytes, from_le_bytes}
use bittice.Snapshot.Codec.{Bincode}

pub data WalOperation : Type 0 where
  insert : Str → List ℕ → WalOperation
  delete : Str → ℕ → ℕ → WalOperation
  update : Str → List ℕ → ℕ → ℕ → WalOperation

-- `unexpected_eof` is `io::ErrorKind::UnexpectedEof`; `bincode` stands without the error it wraps.
pub data WalError : Type 0 where
  unexpected_eof : WalError
  bincode : WalError

-- What the buffered writer holds, and what is in the file.
pub record Wal : Type 0 where
  pub buffer : List ℕ
  pub file : List ℕ

-- The size above which `vec![0u8; len]` panics.
abbrev pub capacity : ℕ
capacity = 2 ^ 63

-- `Wal::open`: a file that is missing is created empty, and what is there is kept.
unfoldable pub open_wal : Option (List ℕ) → Wal
open_wal none = record { buffer = []; file = [] }
open_wal (some bytes) = record { buffer = []; file = bytes }

-- What `append` hands to the writer for a serialized operation.
unfoldable pub frame : List ℕ → List ℕ
frame encoded = to_le_bytes 8 (length encoded % u64_mod) ++ encoded

-- `Wal::flush_writes`.
unfoldable pub flush_writes : Wal → Wal
flush_writes w = record { buffer = []; file = w.file ++ w.buffer }

-- `Wal::truncate`: flush, cut the file to no bytes, and open it again with an empty buffer.
unfoldable pub truncate : Wal → Wal
unfolding flush_writes
truncate w = record (flush_writes w) { file = []; buffer = [] }

module _ (codec : Bincode WalOperation) where
  -- `Wal::append`.
  unfoldable pub append : Wal → WalOperation → Result WalError Wal
  unfolding frame
  append w op = do
    encoded ← ok_or bincode (codec.serialize op)
    ok (record w { buffer = w.buffer ++ frame encoded })

  -- A record's payload: `vec![0u8; len]` is allocated first, then `read_exact` fills it or fails.
  unfoldable pub read_payload : ℕ → List ℕ → Result WalError (WalOperation × List ℕ)
  read_payload len bytes =
      if not (ltb len capacity)
      then panic
      else if ltb (length bytes) len
      then err unexpected_eof
      else do op ← ok_or bincode (codec.deserialize (take len bytes)); ok (op, drop len bytes)

  -- The loop of `replay`. Every round reads eight bytes or stops, so the length of the file is
  -- enough rounds.
  unfoldable pub replay_loop : ℕ → List ℕ → Result WalError (List WalOperation)
  replay_loop zero bytes = ok []
  replay_loop (suc fuel) bytes =
      let len = from_le_bytes (take 8 bytes) in
      let round : Result WalError (List WalOperation) = (do
        (op, after) ← read_payload len (drop 8 bytes)
        ops ← replay_loop fuel after
        ok (op ∷ ops)) in
      if ltb (length bytes) 8 then ok [] else round

  -- `Wal::replay`, on the file's bytes if the file exists.
  unfoldable pub replay : Option (List ℕ) → Result WalError (List WalOperation)
  unfolding replay_loop
  replay none = ok []
  replay (some bytes) = replay_loop (length bytes) bytes
