-- ===== src/Tests/WalRuns.antt =====
-- The write-ahead log: a small codec, runs, and the theorems at concrete inputs.
use bittice.Prelude.{
  ℕ, ◌<◌, ◌^◌, ◌≡◌, ◌≢◌, ◌⊎◌, refl, Option, none, some, List, [], ◌∷◌, ◌++◌, length, arith, ok, err,
}
use bittice.Bytes.{to_le_bytes, from_le_bytes}
use bittice.Snapshot.Codec.{Bincode, IsLawful}
use bittice.Wal.{
  Wal, WalOperation, insert, delete, update, unexpected_eof, open_wal, append, frame, flush_writes,
  replay, replay_loop, read_payload,
}
use bittice.Wal.Steps.{IsVec, Reach, opened, next, appended, spilled, spill}
use bittice.Wal.Replay.{Encodes, recovered}
use bittice.Wal.Crash.{crash-recovered, crash-prefix, replay-flush_writes}

-- Rows of one byte and deletions, of the empty id.
abbrev put_op : WalOperation → Option (List ℕ)
put_op (insert [] (x ∷ [])) = some (x ∷ [])
put_op (delete [] s l) = some (s ∷ l ∷ [])
put_op _ = none

abbrev get_op : List ℕ → Option WalOperation
get_op (x ∷ []) = some (insert [] (x ∷ []))
get_op (s ∷ l ∷ []) = some (delete [] s l)
get_op _ = none

abbrev small_ops : Bincode WalOperation
small_ops = record { serialize = put_op; deserialize = get_op }

get-put : (op : WalOperation) (bytes : List ℕ) → put_op op ≡ some bytes → get_op bytes ≡ some op
get-put (insert [] (x ∷ [])) bytes h = rw (← (let e : (x ∷ []) ≡ bytes = cc in e)) refl
get-put (delete [] s l) bytes h = rw (← (let e : (s ∷ l ∷ []) ≡ bytes = cc in e)) refl
get-put (insert [] []) bytes h = cc
get-put (insert [] (x ∷ y ∷ r)) bytes h = cc
get-put (insert (c ∷ i) d) bytes h = cc
get-put (delete (c ∷ i) s l) bytes h = cc
get-put (update i d s l) bytes h = cc

small_ops-IsLawful : IsLawful small_ops
small_ops-IsLawful = record { deserialize-serialize = get-put }

small : (op : WalOperation) (bytes : List ℕ) → put_op op ≡ some bytes → length bytes < 2 ^ 63
small (insert [] (x ∷ [])) bytes h = rw (← (let e : (x ∷ []) ≡ bytes = cc in e)) (omega arith)
small (delete [] s l) bytes h = rw (← (let e : (s ∷ l ∷ []) ≡ bytes = cc in e)) (omega arith)
small (insert [] []) bytes h = cc
small (insert [] (x ∷ y ∷ r)) bytes h = cc
small (insert (c ∷ i) d) bytes h = cc
small (delete (c ∷ i) s l) bytes h = cc
small (update i d s l) bytes h = cc

small_ops-IsVec : IsVec small_ops
small_ops-IsVec = record { small = small }

abbrev put_row : WalOperation
put_row = insert [] (7 ∷ [])

abbrev delete_row : WalOperation
delete_row = delete [] 3 4

abbrev logged : List WalOperation
logged = put_row ∷ delete_row ∷ []

-- Two operations, of which the writer has moved `n` bytes to the file.
abbrev two_frames : List ℕ
two_frames = 1 ∷ 0 ∷ 0 ∷ 0 ∷ 0 ∷ 0 ∷ 0 ∷ 0 ∷ 7 ∷ 2 ∷ 0 ∷ 0 ∷ 0 ∷ 0 ∷ 0 ∷ 0 ∷ 0 ∷ 3 ∷ 4 ∷ []

abbrev one_logged : Wal
one_logged = record { buffer = 1 ∷ 0 ∷ 0 ∷ 0 ∷ 0 ∷ 0 ∷ 0 ∷ 0 ∷ 7 ∷ []; file = [] }

abbrev both_logged : Wal
both_logged = record { buffer = two_frames; file = [] }

both_logged-Reach : Reach small_ops both_logged logged
unfolding append frame to_le_bytes open_wal
both_logged-Reach =
    next one_logged both_logged (put_row ∷ []) logged
      (next (open_wal none) one_logged [] (put_row ∷ []) opened
        (appended (open_wal none) one_logged [] put_row refl))
      (appended one_logged both_logged (put_row ∷ []) delete_row refl)

cut_at : (n : ℕ) → Reach small_ops (spill n both_logged) logged
cut_at n =
    next both_logged (spill n both_logged) logged logged both_logged-Reach
      (spilled both_logged logged n)

-- A cut inside a length is passed over, and a cut inside a payload is an error.
cut_runs :
    (replay small_ops (some (spill 12 both_logged).file) ≡ ok (put_row ∷ []))
    × (replay small_ops (some (spill 18 both_logged).file) ≡ err unexpected_eof)
    × (replay small_ops (some (spill 19 both_logged).file) ≡ ok logged)
unfolding replay replay_loop read_payload from_le_bytes spill
cut_runs = (refl, refl, refl)

-- After a cut inside a length, a record that is appended behind it is lost: the next replay reads the
-- rest of the cut length from it.
appended_behind_cut :
    replay small_ops (some ((2 ∷ 0 ∷ 0 ∷ []) ++ frame (7 ∷ []))) ≢ ok (put_row ∷ [])
unfolding replay replay_loop read_payload from_le_bytes frame to_le_bytes
appended_behind_cut = λ h. cc

crash-recovered_example :
    (bs : List (List ℕ)) × Encodes small_ops logged bs
    × (replay small_ops (some (spill 12 both_logged).file)
        ≡ recovered (length (spill 12 both_logged).file) logged bs)
crash-recovered_example =
    crash-recovered small_ops small_ops-IsLawful small_ops-IsVec (spill 12 both_logged) logged
      (cut_at 12)

crash-prefix_example :
    (replay small_ops (some (spill 18 both_logged).file) ≡ err unexpected_eof)
    ⊎ ((got lost : List WalOperation) × (replay small_ops (some (spill 18 both_logged).file)
          ≡ ok got)
        × (logged ≡ got ++ lost))
crash-prefix_example =
    crash-prefix small_ops small_ops-IsLawful small_ops-IsVec (spill 18 both_logged) logged
      (cut_at 18)

replay-flush_writes_example :
    replay small_ops (some (flush_writes (spill 12 both_logged)).file) ≡ ok logged
replay-flush_writes_example =
    replay-flush_writes small_ops small_ops-IsLawful small_ops-IsVec (spill 12 both_logged) logged
      (cut_at 12)
