-- ===== src/Snapshot/Layout.antt =====
-- The file that the writer produces: a header, the serialized values in a row, and an index section
-- whose entries point at them.
use bittice.Prelude.{
  ℕ, suc, ◌+◌, ◌*◌, ◌<◌, ◌≡◌, refl, ap, sym, ◌∙◌, some, List, [], ◌∷◌, ◌++◌, append_assoc,
  append-nil, length, length-append, All, arith, ok,
}
use mathlib.Core.Path.{ap₂}
use native.Mathlib.Nat.{mod-eq_of_lt}
use bittice.Bytes.{u32_mod, u64_mod, u128_mod}
use bittice.Snapshot.Codec.{Bincode}
use bittice.Snapshot.Format.{IndexEntry, header_size, index_entry_size, write_entry}
use bittice.Snapshot.Format.RoundTrip.{length-write_entry}
use bittice.Snapshot.Writer.{WriteState, write_blob, write_entries, write_loop}

abbrev pub concat : List (List ℕ) → List ℕ
concat [] = []
concat (b ∷ bs) = b ++ concat bs

-- The index entries of values whose bytes stand in a row from `off` on.
abbrev pub index_of {ℓ} : {V : Type ℓ} → ℕ → List (ℕ × V) → List (List ℕ) → List IndexEntry
index_of off [] bs = []
index_of off (x ∷ es) [] = []
index_of off ((h, v) ∷ es) (b ∷ bs) =
    record { hash = h; offset = off; length = length b } ∷ index_of (off + length b) es bs

-- `bs` are the serialized values of `es`.
abbrev pub Serializes {ℓ} : {V : Type ℓ} → Bincode V → List (ℕ × V) → List (List ℕ) → Type 0
Serializes c [] [] = Unit
Serializes c ((h, v) ∷ es) (b ∷ bs) = (c.serialize v ≡ some b) × Serializes c es bs
Serializes c _ _ = ⊥

-- What the machine integers of the format can hold.
pub record Fits {ℓ} {V : Type ℓ} (es : List (ℕ × V)) (bs : List (List ℕ)) : Type 0 where
  pub hashes : All (λ e. e.0 < u128_mod) es
  pub blobs : All (λ b. length b < u32_mod) bs
  pub total : header_size + length (concat bs) + index_entry_size * length es < u64_mod

pub length-write_entries :
    (es : List IndexEntry) → length (write_entries es) ≡ index_entry_size * length es
unfolding write_entries
length-write_entries [] = omega arith
length-write_entries (e ∷ es) = omega (
  arith,
  length-append (write_entry e) (write_entries es),
  length-write_entry e,
  length-write_entries es,
)

pub length-index_of {ℓ} :
    {V : Type ℓ} (c : Bincode V) (off : ℕ) (es : List (ℕ × V)) (bs : List (List ℕ))
    → Serializes c es bs
    → length (index_of off es bs) ≡ length es
length-index_of c off [] [] s = refl
length-index_of c off [] (b ∷ bs) s = absurd s
length-index_of c off (x ∷ es) [] s = absurd s
length-index_of c off ((h, v) ∷ es) (b ∷ bs) s =
    ap suc (length-index_of c (off + length b) es bs s.1)

module _ {ℓ} {V : Type ℓ} where
  -- the state after the values have been written
  abbrev pub write_blobs : WriteState → List (ℕ × V) → List (List ℕ) → WriteState
  write_blobs s [] bs = s
  write_blobs s (x ∷ es) [] = s
  write_blobs s ((h, v) ∷ es) (b ∷ bs) = write_blobs (write_blob s h b) es bs

  pub write_loop-Serializes :
      (c : Bincode V) (s : WriteState) (es : List (ℕ × V)) (bs : List (List ℕ))
      → Serializes c es bs
      → write_loop c s es ≡ ok (write_blobs s es bs)
  unfolding write_loop
  write_loop-Serializes c s [] [] h = refl
  write_loop-Serializes c s [] (b ∷ bs) h = absurd h
  write_loop-Serializes c s (x ∷ es) [] h = absurd h
  write_loop-Serializes c s ((k, v) ∷ es) (b ∷ bs) h =
      rw (h.0) (write_loop-Serializes c (write_blob s k b) es bs h.1)

  -- What the state holds after the values have been written.
  pub record Wrote (s t : WriteState) (es : List (ℕ × V)) (bs : List (List ℕ)) : Type 0 where
    pub out : t.out ≡ s.out ++ concat bs
    pub index_entries : t.index_entries ≡ s.index_entries ++ index_of s.current_offset es bs
    pub current_offset : t.current_offset ≡ s.current_offset + length (concat bs)
    pub num_entries : t.num_entries ≡ s.num_entries + length es

  -- One more value in front.
  Wrote-cons :
      (s t u : WriteState) (k : ℕ) (v : V) (b : List ℕ) (es : List (ℕ × V)) (bs : List (List ℕ))
      → Wrote s t ((k, v) ∷ []) (b ∷ [])
      → Wrote t u es bs
      → Wrote s u ((k, v) ∷ es) (b ∷ bs)
  Wrote-cons s t u k v b es bs first w = record {
    out =
        w.out
        ∙ ap (λ x. x ++ concat bs) (first.out ∙ ap (λ x. s.out ++ x) (append-nil b))
        ∙ append_assoc s.out b (concat bs);
    index_entries =
        w.index_entries
        ∙ ap₂ (λ x off. x ++ index_of off es bs) first.index_entries offset
        ∙ append_assoc s.index_entries (index_of s.current_offset ((k, v) ∷ []) (b ∷ []))
            (index_of (s.current_offset + length b) es bs);
    current_offset = omega (arith, w.current_offset, offset, length-append b (concat bs));
    num_entries = omega (arith, w.num_entries, first.num_entries);
  }
    where
      offset : t.current_offset ≡ s.current_offset + length b
      offset = omega (arith, first.current_offset, ap length (append-nil b))

  write_blob-Wrote :
      (s : WriteState) (k : ℕ) (v : V) (b : List ℕ)
      → length b < u32_mod
      → s.current_offset + length b < u64_mod
      → s.num_entries + 1 < u64_mod
      → Wrote s (write_blob s k b) ((k, v) ∷ []) (b ∷ [])
  unfolding write_blob
  write_blob-Wrote s k v b small fits few = record {
    out = ap (λ x. s.out ++ x) (sym (append-nil b));
    index_entries =
        ap
          (λ n.
            s.index_entries ++ (record { hash = k; offset = s.current_offset; length = n } ∷ []))
          (mod-eq_of_lt small);
    current_offset = omega (arith, ap length (append-nil b));
    num_entries = omega arith;
  }

  -- Writing the values appends their bytes and records where each of them starts.
  pub write_blobs-Wrote :
      (c : Bincode V) (s : WriteState) (es : List (ℕ × V)) (bs : List (List ℕ))
      → Serializes c es bs
      → All (λ b. length b < u32_mod) bs
      → s.current_offset + length (concat bs) < u64_mod
      → s.num_entries + length es < u64_mod
      → Wrote s (write_blobs s es bs) es bs
  write_blobs-Wrote c s [] [] h small fits few = record {
    out = sym (append-nil s.out);
    index_entries = sym (append-nil s.index_entries);
    current_offset = omega arith;
    num_entries = omega arith;
  }
  write_blobs-Wrote c s [] (b ∷ bs) h small fits few = absurd h
  write_blobs-Wrote c s (x ∷ es) [] h small fits few = absurd h
  write_blobs-Wrote c s ((k, v) ∷ es) (b ∷ bs) h small fits few =
      Wrote-cons s (write_blob s k b) (write_blobs (write_blob s k b) es bs) k v b es bs first (
        write_blobs-Wrote c (write_blob s k b) es bs h.1 small.1
          (omega (arith, total, first.current_offset, ap length (append-nil b)))
          (omega (arith, first.num_entries)))
    where
      total : length (b ++ concat bs) ≡ length b + length (concat bs)
      total = length-append b (concat bs)

      first : Wrote s (write_blob s k b) ((k, v) ∷ []) (b ∷ [])
      first = write_blob-Wrote s k v b small.0 (omega (arith, total)) (omega arith)
