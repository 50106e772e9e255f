-- ===== src/Canonical.antt =====
-- Canonical bytes and value hashes (src/core/storage/canonical.rs, and the `hash` functions of
-- src/core/storage/exact_index.rs and primary_index.rs). Unicode normalization and xxh3 are crates.
use bittice.Prelude.{
  Str, ℕ, ◌≡◌, ap, sym, ◌∙◌, Bool, true, if◌then◌else◌, List, Bool-cases, inl, inr,
}

-- The crates `unicode_normalization` and `xxhash_rust`. A text is its UTF-8 bytes.
pub record Text : Type 0 where
  pub is_nfc : Str → Bool
  pub nfc : Str → Str
  pub xxh3_128 : List ℕ → ℕ

-- The documented behaviour of normalization: a text that is reported as normalized is its own normal
-- form, and normalizing is idempotent.
pub record IsUnicode (t : Text) : Type 0 where
  pub nfc_fixed : (s : Str) → t.is_nfc s ≡ true → t.nfc s ≡ s
  pub nfc_idempotent : (s : Str) → t.nfc (t.nfc s) ≡ t.nfc s

module _ (t : Text) where
  unfoldable pub canonical_bytes : Str → List ℕ
  canonical_bytes s = if t.is_nfc s then s else t.nfc s

  -- `ExactIndex::hash` and `PrimaryIndex::hash`.
  unfoldable pub hash : Str → ℕ
  hash value = t.xxh3_128 (canonical_bytes value)

  -- The canonical bytes are those of the normal form, whichever branch is taken.
  pub canonical_bytes-nfc : (u : IsUnicode t) (s : Str) → canonical_bytes s ≡ t.nfc s
  unfolding canonical_bytes
  canonical_bytes-nfc u s = elim (Bool-cases (t.is_nfc s)) [
    | inl yes_nfc ↦ rw yes_nfc (sym (u.nfc_fixed s yes_nfc))
    | inr not_nfc ↦ rw not_nfc
  ]

  -- Where normalization behaves as documented, two spellings with the same normal form have the same hash, and a text has the hash of its normal
  -- form.
  pub hash-nfc :
      (u : IsUnicode t) (a b : Str)
      → t.nfc a ≡ t.nfc b
      → (hash a ≡ hash b) × (hash (t.nfc a) ≡ hash a)
  unfolding hash
  hash-nfc u a b same = (
    ap t.xxh3_128 (canonical_bytes-nfc u a ∙ same ∙ sym (canonical_bytes-nfc u b)),
    ap t.xxh3_128
        (canonical_bytes-nfc u (t.nfc a) ∙ u.nfc_idempotent a ∙ sym (canonical_bytes-nfc u a)),
  )
