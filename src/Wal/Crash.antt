-- ===== src/Wal/Crash.antt =====
-- What a crash leaves: the buffer is lost, and the file holds the log up to some byte.
use mathlib.Core.Path.{subst}
use bittice.Prelude.{
  ℕ, zero, suc, ◌+◌, ◌-◌, ◌<◌, ◌≡◌, refl, sym, ap, ◌∙◌, Option, some, none, List, [], ◌∷◌, ◌++◌,
  append-nil, append_assoc, length, take, drop, length-append, take-append, Result, ok, err, ltb,
  arith, Bool-cases, inl, inr, ◌⊎◌, le→ltb,
}
use bittice.Snapshot.Codec.{Bincode, IsLawful}
use bittice.Wal.{
  Wal, WalOperation, WalError, unexpected_eof, bincode, frame, open_wal, append, flush_writes,
  truncate, capacity, replay, replay_loop,
}
use bittice.Wal.Steps.{
  IsVec, Step, appended, spilled, flushed, truncated, Reach, opened, next, spill,
}
use bittice.Wal.Replay.{frames, Encodes, recovered, replay_loop-recovered, length-frame}

frames-append : (bs : List (List ℕ)) (b : List ℕ) → frames (bs ++ b ∷ []) ≡ frames bs ++ frame b
frames-append [] b = append-nil (frame b)
frames-append (c ∷ bs) b =
    ap (λ r. frame c ++ r) (frames-append bs b) ∙ sym (append_assoc (frame c) (frames bs) (frame b))

take-drop : (n : ℕ) (xs : List ℕ) → take n xs ++ drop n xs ≡ xs
take-drop zero xs = refl
take-drop (suc n) [] = refl
take-drop (suc n) (x ∷ xs) = ap (λ r. x ∷ r) (take-drop n xs)

module _ (codec : Bincode WalOperation) where
  Encodes-append :
      (ops : List WalOperation) (bs : List (List ℕ)) (op : WalOperation) (b : List ℕ)
      → Encodes codec ops bs
      → codec.serialize op ≡ some b
      → length b < capacity
      → Encodes codec (ops ++ op ∷ []) (bs ++ b ∷ [])
  Encodes-append [] [] op b s h small = (h, small, tt)
  Encodes-append [] (c ∷ bs) op b s h small = absurd s
  Encodes-append (o ∷ ops) [] op b s h small = absurd s
  Encodes-append (o ∷ ops) (c ∷ bs) op b (ho, hc, s) h small =
      (ho, hc, Encodes-append ops bs op b s h small)

  -- The file and then the buffer hold the records of the operations.
  pub record Holds (w : Wal) (ops : List WalOperation) : Type 0 where
    pub blobs : List (List ℕ)
    pub encodes : Encodes codec ops blobs
    pub bytes : w.file ++ w.buffer ≡ frames blobs

  append-Holds :
      (vec : IsVec codec) (w w' : Wal) (ops : List WalOperation) (op : WalOperation)
      (encoded : Option (List ℕ))
      → codec.serialize op ≡ encoded
      → append codec w op ≡ ok w'
      → Holds w ops
      → Holds w' (ops ++ op ∷ [])
  unfolding append
  append-Holds vec w w' ops op none e h holds = let failed : err bincode ≡ ok w' = rw e at h in cc
  append-Holds vec w w' ops op (some b) e h holds =
      let appends : Result WalError Wal = ok (record w { buffer = w.buffer ++ frame b }) in
      let done : appends ≡ ok w' = rw e at h in
      let same : record w { buffer = w.buffer ++ frame b } ≡ w' = cc done in
      subst (λ v. Holds v (ops ++ op ∷ [])) same
        (record {
          blobs = holds.blobs ++ b ∷ [];
          encodes = Encodes-append ops holds.blobs op b holds.encodes e (vec.small op b e);
          bytes =
              sym (append_assoc w.file w.buffer (frame b))
              ∙ ap (λ r. r ++ frame b) holds.bytes
              ∙ sym (frames-append holds.blobs b);
        })

  Step-Holds :
      (vec : IsVec codec) {w w' : Wal} {ops ops' : List WalOperation}
      → Step codec w ops w' ops'
      → Holds w ops
      → Holds w' ops'
  unfolding spill flush_writes truncate
  Step-Holds vec (appended w w' ops op h) holds =
      append-Holds vec w w' ops op (codec.serialize op) refl h holds
  Step-Holds vec (spilled w ops n) holds = record {
    blobs = holds.blobs;
    encodes = holds.encodes;
    bytes =
        append_assoc w.file (take n w.buffer) (drop n w.buffer)
        ∙ ap (λ r. w.file ++ r) (take-drop n w.buffer)
        ∙ holds.bytes;
  }
  Step-Holds vec (flushed w ops) holds = record {
    blobs = holds.blobs;
    encodes = holds.encodes;
    bytes = append-nil (w.file ++ w.buffer) ∙ holds.bytes;
  }
  Step-Holds vec (truncated w ops) holds = record { blobs = []; encodes = tt; bytes = refl }

  -- Every log that is reached from a new file holds the operations since the last truncation.
  pub Reach-Holds :
      (vec : IsVec codec) {w : Wal} {ops : List WalOperation} → Reach codec w ops → Holds w ops
  unfolding open_wal
  Reach-Holds vec opened = record { blobs = []; encodes = tt; bytes = refl }
  Reach-Holds vec (next w w' ops ops' r s) = Step-Holds vec s (Reach-Holds vec r)

  -- the file is the log up to its own length
  file_prefix :
      (w : Wal) (bytes : List ℕ) → w.file ++ w.buffer ≡ bytes → w.file ≡ take (length w.file) bytes
  file_prefix w bytes e =
      sym (take-append (length w.file) w.file w.buffer refl) ∙ ap (take (length w.file)) e

  -- With a lawful codec into vectors, after a crash at any point of any sequence of calls from a new file, replay of the file recovers the
  -- operations appended since the last truncation whose records are whole in the file; it stops without
  -- an error if the file ends there or within the eight bytes of the next length, and fails with an
  -- unexpected end of file if the file ends inside the next payload.
  pub crash-recovered :
      (lawful : IsLawful codec) (vec : IsVec codec) (w : Wal) (ops : List WalOperation)
      → Reach codec w ops
      → (bs : List (List ℕ)) × Encodes codec ops bs
        × (replay codec (some w.file) ≡ recovered (length w.file) ops bs)
  unfolding replay
  crash-recovered lawful vec w ops r =
      let holds = Reach-Holds vec r in
      let n : ℕ = length w.file in
      let total = ap length holds.bytes in
      (
        holds.blobs,
        holds.encodes,
        ap (replay_loop codec n) (file_prefix w (frames holds.blobs) holds.bytes)
            ∙ replay_loop-recovered codec lawful n n ops holds.blobs holds.encodes
                (omega (arith, total, length-append w.file w.buffer)) (omega arith),
      )

  -- all of the log
  recovered-all :
      (ops : List WalOperation) (bs : List (List ℕ))
      → Encodes codec ops bs
      → recovered (length (frames bs)) ops bs ≡ ok ops
  recovered-all [] [] s = refl
  recovered-all [] (b ∷ bs) s = absurd s
  recovered-all (op ∷ ops) [] s = absurd s
  recovered-all (op ∷ ops) (b ∷ bs) s =
      let total : length (frame b ++ frames bs) ≡ 8 + length b + length (frames bs) =
        length-append (frame b) (frames bs) ∙ ap (λ k. k + length (frames bs)) (length-frame b) in
      let rest : 8 + length b + length (frames bs) - (8 + length b) ≡ length (frames bs) =
        omega arith in
      rw (
        total,
        le→ltb (8 + length b + length (frames bs)) 8 (omega arith),
        le→ltb (8 + length b + length (frames bs)) (8 + length b) (omega arith),
        rest,
        recovered-all ops bs s.2,
      )

  -- what is recovered is a prefix of the operations
  recovered-prefix :
      (n : ℕ) (ops : List WalOperation) (bs : List (List ℕ))
      → (recovered n ops bs ≡ err unexpected_eof)
        ⊎ ((got lost : List WalOperation) × (recovered n ops bs ≡ ok got) × (ops ≡ got ++ lost))
  recovered-prefix n [] bs = inr ([], [], refl, refl)
  recovered-prefix n (op ∷ ops) [] = inr ([], op ∷ ops, refl, refl)
  recovered-prefix n (op ∷ ops) (b ∷ bs) = elim (Bool-cases (ltb n 8)) [
    | inl tiny ↦ inr ([], op ∷ ops, rw tiny, refl)
    | inr more ↦ elim (Bool-cases (ltb n (8 + length b))) [
      | inl cut ↦ inl (rw (more, cut))
      | inr whole ↦ elim (recovered-prefix (n - (8 + length b)) ops bs) [
        | inl failed ↦ inl (rw (more, whole, failed))
        | inr (got, lost, found, split) ↦
            inr (op ∷ got, lost, rw (more, whole, found), ap (λ t. op ∷ t) split)
      ]
    ]
  ]

  -- With a lawful codec into vectors, after a crash at any point of any sequence of calls from a new file, replay does not panic: it fails
  -- with an unexpected end of file, or recovers the operations appended since the last truncation up to
  -- some operation, in their order.
  pub crash-prefix :
      (lawful : IsLawful codec) (vec : IsVec codec) (w : Wal) (ops : List WalOperation)
      → Reach codec w ops
      → (replay codec (some w.file) ≡ err unexpected_eof)
        ⊎ ((got lost : List WalOperation) × (replay codec (some w.file) ≡ ok got)
            × (ops ≡ got ++ lost))
  crash-prefix lawful vec w ops r =
      let (bs, s, found) = crash-recovered lawful vec w ops r in
      elim (recovered-prefix (length w.file) ops bs) [
        | inl failed ↦ inl (found ∙ failed)
        | inr (got, lost, prefix, split) ↦ inr (got, lost, found ∙ prefix, split)
      ]

  -- With a lawful codec into vectors, after `flush_writes`, at any point of any sequence of calls from a new file, replay gives back all
  -- operations appended since the last truncation.
  pub replay-flush_writes :
      (lawful : IsLawful codec) (vec : IsVec codec) (w : Wal) (ops : List WalOperation)
      → Reach codec w ops
      → replay codec (some (flush_writes w).file) ≡ ok ops
  unfolding replay flush_writes
  replay-flush_writes lawful vec w ops r =
      let holds = Reach-Holds vec r in
      let n : ℕ = length (frames holds.blobs) in
      rw holds.bytes (
        ap (replay_loop codec n) (
          sym (take-append n (frames holds.blobs) [] refl)
          ∙ ap (take n) (append-nil (frames holds.blobs)))
        ∙ replay_loop-recovered codec lawful n n ops holds.blobs holds.encodes (omega arith)
            (omega arith)
        ∙ recovered-all ops holds.blobs holds.encodes)
