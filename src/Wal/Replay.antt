-- ===== src/Wal/Replay.antt =====
-- What replay reads from a log that holds the records of some operations up to some byte.
use bittice.Prelude.{
  ℕ, zero, suc, ◌+◌, ◌-◌, ◌%◌, ◌≤◌, ◌<◌, ◌≡◌, refl, sym, ap, ◌∙◌, Bool-cases, inl, inr, List, [],
  ◌∷◌, ◌++◌, length, take, length-append, length-take, take-append, take-append_le, drop-append,
  append_assoc, ltb, lt→ltb, le→ltb, ltb→lt, if◌then◌else◌, arith, some, Result, ok, err, ◌>>=◌,
}
use native.Mathlib.Nat.{mod-eq_of_lt}
use bittice.Bytes.{
  u64_mod, to_le_bytes, from_le_bytes, length-to_le_bytes, from_le_bytes-to_le_bytes,
}
use bittice.Snapshot.Codec.{Bincode, IsLawful}
use bittice.Wal.{WalOperation, WalError, unexpected_eof, frame, capacity, read_payload, replay_loop}

-- The records of serialized operations, one after the other.
abbrev pub frames : List (List ℕ) → List ℕ
frames [] = []
frames (b ∷ bs) = frame b ++ frames bs

-- `bs` are the operations `ops`, serialized into vectors.
abbrev pub Encodes : Bincode WalOperation → List WalOperation → List (List ℕ) → Type 0
Encodes codec [] [] = Unit
Encodes codec (op ∷ ops) (b ∷ bs) =
    (codec.serialize op ≡ some b) × (length b < capacity) × Encodes codec ops bs
Encodes codec _ _ = ⊥

-- What the first `n` bytes of the log give back: the operations whose records are whole; then the end,
-- if at most seven bytes of a length follow, and an error, if a record is cut later than that.
abbrev pub recovered : ℕ → List WalOperation → List (List ℕ) → Result WalError (List WalOperation)
recovered n (op ∷ ops) (b ∷ bs) =
    let rest : Result WalError (List WalOperation) = (do
      later ← recovered (n - (8 + length b)) ops bs
      ok (op ∷ later)) in
    if ltb n 8 then ok [] else if ltb n (8 + length b) then err unexpected_eof else rest
recovered n _ _ = ok []

pub length-frame : (b : List ℕ) → length (frame b) ≡ 8 + length b
unfolding frame
length-frame b =
    length-append (to_le_bytes 8 (length b % u64_mod)) b
    ∙ ap (λ k. k + length b) (length-to_le_bytes 8 (length b % u64_mod))

read_length :
    (b : List ℕ)
    → length b < capacity
    → from_le_bytes (to_le_bytes 8 (length b % u64_mod)) ≡ length b
read_length b small =
    ap (λ k. from_le_bytes (to_le_bytes 8 k)) (mod-eq_of_lt (omega (arith, small)))
    ∙ from_le_bytes-to_le_bytes 8 (length b) (omega (arith, small))

take-append_ge :
    (n : ℕ) (xs ys : List ℕ) → length xs ≤ n → take n (xs ++ ys) ≡ xs ++ take (n - length xs) ys
take-append_ge n [] ys le = let same : n ≡ n - 0 = omega arith in ap (λ k. take k ys) same
take-append_ge zero (x ∷ xs) ys le = absurd (omega (arith, le))
take-append_ge (suc n) (x ∷ xs) ys le =
    let same : suc n - suc (length xs) ≡ n - length xs = omega arith in
    ap (λ zs. x ∷ zs) (take-append_ge n xs ys (omega (arith, le)))
    ∙ ap (λ k. x ∷ (xs ++ take k ys)) (sym same)

module _ (codec : Bincode WalOperation) where
  -- one record behind its eight bytes of length
  replay_header :
      (fuel : ℕ) (b tail : List ℕ)
      → length b < capacity
      → replay_loop codec (suc fuel) (to_le_bytes 8 (length b % u64_mod) ++ tail) ≡ (do
        (op, after) ← read_payload codec (length b) tail
        ops ← replay_loop codec fuel after
        ok (op ∷ ops))
  unfolding replay_loop
  replay_header fuel b tail small =
      let eight = length-to_le_bytes 8 (length b % u64_mod) in
      rw (
        le→ltb (length (to_le_bytes 8 (length b % u64_mod) ++ tail)) 8
            (omega (arith, eight, length-append (to_le_bytes 8 (length b % u64_mod)) tail)),
        take-append 8 (to_le_bytes 8 (length b % u64_mod)) tail (sym eight),
        drop-append 8 (to_le_bytes 8 (length b % u64_mod)) tail (sym eight),
        read_length b small,
      )

  -- a whole payload
  read_whole :
      (b tail : List ℕ) (op : WalOperation)
      → length b < capacity
      → codec.deserialize b ≡ some op
      → read_payload codec (length b) (b ++ tail) ≡ ok (op, tail)
  unfolding read_payload
  read_whole b tail op small decodes = rw (
    lt→ltb (length b) capacity small,
    le→ltb (length (b ++ tail)) (length b) (omega (arith, length-append b tail)),
    take-append (length b) b tail refl,
    drop-append (length b) b tail refl,
    decodes,
  )

  -- a cut payload
  read_torn :
      (b tail : List ℕ)
      → length b < capacity
      → length tail < length b
      → read_payload codec (length b) tail ≡ err unexpected_eof
  unfolding read_payload
  read_torn b tail small short =
      rw (lt→ltb (length b) capacity small, lt→ltb (length tail) (length b) short)

  replay_short : (fuel : ℕ) (tail : List ℕ) → length tail < 8 → replay_loop codec fuel tail ≡ ok []
  unfolding replay_loop
  replay_short zero tail short = refl
  replay_short (suc fuel) tail short = rw (lt→ltb (length tail) 8 short)

  torn_record :
      (fuel n : ℕ) (b rest : List ℕ)
      → length b < capacity
      → 8 ≤ n
      → n < 8 + length b
      → replay_loop codec (suc fuel) (take n (frame b ++ rest)) ≡ err unexpected_eof
  unfolding frame
  torn_record fuel n b rest small header cut =
      let eight = length-to_le_bytes 8 (length b % u64_mod) in
      let cuts : take n (frame b ++ rest) ≡ to_le_bytes 8 (length b % u64_mod) ++ take (n - 8) b =
        take-append_le n (frame b) rest (omega (arith, length-frame b))
        ∙ take-append_ge n (to_le_bytes 8 (length b % u64_mod)) b (omega (arith, eight))
        ∙ ap (λ k. to_le_bytes 8 (length b % u64_mod) ++ take (n - k) b) eight in
      rw cuts (
        replay_header fuel b (take (n - 8) b) small
        ∙ rw (read_torn b (take (n - 8) b) small (omega (arith, length-take (n - 8) b))))

  whole_record :
      (fuel n : ℕ) (b rest : List ℕ) (op : WalOperation)
      → length b < capacity
      → codec.deserialize b ≡ some op
      → 8 + length b ≤ n
      → replay_loop codec (suc fuel) (take n (frame b ++ rest))
        ≡ (do later ← replay_loop codec fuel (take (n - (8 + length b)) rest); ok (op ∷ later))
  unfolding frame
  whole_record fuel n b rest op small decodes whole =
      let cuts : take n (frame b ++ rest)
          ≡ to_le_bytes 8 (length b % u64_mod) ++ (b ++ take (n - (8 + length b)) rest) =
        take-append_ge n (frame b) rest (omega (arith, length-frame b))
        ∙ ap (λ k. frame b ++ take (n - k) rest) (length-frame b)
        ∙ append_assoc (to_le_bytes 8 (length b % u64_mod)) b (take (n - (8 + length b)) rest) in
      rw cuts (
        replay_header fuel b (b ++ take (n - (8 + length b)) rest) small
        ∙ rw (read_whole b (take (n - (8 + length b)) rest) op small decodes))

  -- On any number of rounds from `n` on.
  pub replay_loop-recovered :
      (lawful : IsLawful codec) (fuel n : ℕ) (ops : List WalOperation) (bs : List (List ℕ))
      → Encodes codec ops bs
      → n ≤ length (frames bs)
      → n ≤ fuel
      → replay_loop codec fuel (take n (frames bs)) ≡ recovered n ops bs
  replay_loop-recovered lawful fuel n [] [] s fits enough =
      replay_short fuel (take n []) (omega (arith, length-take {A = ℕ} n []))
  replay_loop-recovered lawful fuel n [] (b ∷ bs) s fits enough = absurd s
  replay_loop-recovered lawful fuel n (op ∷ ops) [] s fits enough = absurd s
  replay_loop-recovered lawful zero n (op ∷ ops) (b ∷ bs) s fits enough =
      rw (lt→ltb n 8 (omega arith)) (
        replay_short zero (take n (frame b ++ frames bs))
          (omega (arith, length-take n (frame b ++ frames bs))))
  replay_loop-recovered lawful (suc fuel) n (op ∷ ops) (b ∷ bs) (encodes, small, s) fits enough =
      elim (Bool-cases (ltb n 8)) [
        | inl tiny ↦ rw tiny (
            replay_short (suc fuel) (take n (frame b ++ frames bs)) (
              let lt : n < 8 = ltb→lt n 8 tiny in
              omega (arith, length-take n (frame b ++ frames bs))))
        | inr more ↦ elim (Bool-cases (ltb n (8 + length b))) [
          | inl cut ↦
              rw (more, cut)
                (torn_record fuel n b (frames bs) small (ground arith)
                  (ltb→lt n (8 + length b) cut))
          | inr whole ↦
              let le : 8 + length b ≤ n = ground arith in
              let all : length (frame b ++ frames bs) ≡ 8 + length b + length (frames bs) =
                length-append (frame b) (frames bs)
                ∙ ap (λ k. k + length (frames bs)) (length-frame b) in
              rw (more, whole)
                (whole_record fuel n b (frames bs) op small
                    (lawful.deserialize-serialize op b encodes) le
                  ∙ rw (
                      replay_loop-recovered lawful fuel (n - (8 + length b)) ops bs s
                        (omega (arith, fits, all)) (omega arith)))
        ]
      ]
