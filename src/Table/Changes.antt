-- ===== src/Table/Changes.antt =====
-- What `insert` and `delete` do to the index of a table (src/core/storage/table.rs).
use bittice.Prelude.{
  Str, ℕ, ◌≡◌, refl, sym, ap, ◌∙◌, ◌==◌, ==_iff, Bool, false, if◌then◌else◌, Option, some, List,
  ◌++◌, lookup, ok, inl, inr, Bool-cases,
}
use bittice.Bitmaps.{Roaring}
use bittice.Canonical.{Text, hash}
use bittice.Snapshot.Codec.{Bincode}
use bittice.Wal.{WalOperation, Wal, append, frame}
use bittice.PrimaryIndex.{Location, get}
use bittice.Table.{Table}
use bittice.Table.Live.{IsTable}

-- The documented behaviour of `bincode::serialize` on an operation: strings, bytes and numbers are
-- always written.
abbrev pub CanSerialize : Bincode WalOperation → Type 0
CanSerialize codec = (op : WalOperation) → (bytes : List ℕ) × (codec.serialize op ≡ some bytes)

pub append_ok :
    (codec : Bincode WalOperation)
    → CanSerialize codec
    → (w : Wal) (op : WalOperation) → (w' : Wal) × (append codec w op ≡ ok w')
unfolding append
append_ok codec can w op =
    let (bytes, e) = can op in (record w { buffer = w.buffer ++ frame bytes }, rw e refl)

-- The key is in the index.
abbrev pub IsFound : Option Location → Type 0
IsFound found = (loc : Location) × (found ≡ some loc)

module _ (text : Text) (uuid_key : Str) {r : Roaring} (fields : Str → Bool) where
  -- A change of the key with the given text: the table is as it should be, and the keys with other hashes
  -- have what they had.
  pub record Changed (id : Str) (at : Option Location → Type 0) (t t' : Table r) : Type 0 where
    pub valid : IsTable text uuid_key fields t'
    pub here : at (get text t'.primary_index id)
    pub others :
        (k : Str)
        → get text t'.primary_index k ≡ (
            if hash text id == hash text k
            then get text t'.primary_index id
            else get text t.primary_index k)

  pub other_keys :
      (id : Str) (t t' : Table r)
      → ((k : Str)
          → (hash text id == hash text k) ≡ false
          → get text t'.primary_index k ≡ get text t.primary_index k)
      → (k : Str)
      → get text t'.primary_index k ≡ (
          if hash text id == hash text k
          then get text t'.primary_index id
          else get text t.primary_index k)
  unfolding get
  other_keys id t t' h k = elim (Bool-cases (hash text id == hash text k)) [
    | inl same ↦ rw same (
        ap (λ n. lookup n t'.primary_index.inner)
          (sym ((==_iff (hash text id) (hash text k)).0 same)))
    | inr differs ↦ rw differs (h k differs)
  ]

  -- a table with the same index in front of a change
  pub before-Changed :
      (id : Str) (at : Option Location → Type 0) (t t1 t' : Table r)
      → t1.primary_index ≡ t.primary_index
      → Changed id at t1 t'
      → Changed id at t t'
  before-Changed id at t t1 t' index c = record {
    valid = c.valid;
    here = c.here;
    others = λ k.
        c.others k
        ∙ ap
            (λ idx.
              if hash text id == hash text k then get text t'.primary_index id else get text idx k)
            index;
  }
