-- ===== src/ExactIndex/View.antt =====
-- The map that an exact index stands for, and that `get` answers from it.
use bittice.Prelude.{
  Str, ℕ, ◌≡◌, refl, sym, ap, ◌∙◌, Option, none, some, List, [], Result, ok, lookup, inl, inr,
}
use bittice.Canonical.{Text, hash}
use bittice.Snapshot.Codec.{Bincode}
use bittice.Snapshot.Format.{FormatError}
use bittice.Snapshot.Reader.{SnapshotReader}
use bittice.Snapshot.RoundTrip.{Shows}
use bittice.ExactIndex.Delta.{Roaring, Lru, IsLru, DeltaEntry, replace, removed, Bitmaps}
use bittice.ExactIndex.{ExactIndex, get, get_delta, get_cached, get_snapshot, remember}

-- What an entry of the delta makes of the snapshot's answer.
abbrev pub override : {V : Type 0} → Option (DeltaEntry V) → Option V → Option V
override (some (replace v)) below = some v
override (some removed) below = none
override none below = below

-- The bitmaps of a hash: those of the delta over those of the snapshot `es`.
abbrev pub view : {V : Type 0} → List (ℕ × DeltaEntry V) → List (ℕ × V) → ℕ → Option V
view delta es h = override (lookup h delta) (lookup h es)

-- The snapshot holds the pairs `es`; no snapshot holds none.
abbrev pub IsBacked : {V : Type 0} → Bincode V → Option SnapshotReader → List (ℕ × V) → Type 0
IsBacked codec none es = es ≡ []
IsBacked codec (some snap) es = Shows codec snap es

-- The index stands for the snapshot pairs `es` under its delta. At every hash that the delta does not
-- have, what the cache holds is what the snapshot has.
pub record IsValid {r : Roaring} {l : Lru (Bitmaps r)} (codec : Bincode (Bitmaps r))
    (idx : ExactIndex r l) (es : List (ℕ × Bitmaps r)) : Type 0 where
  pub backed : IsBacked codec idx.snapshot es
  pub coherent :
      (h : ℕ) (v : Bitmaps r)
      → lookup h idx.delta ≡ none
      → (l.get h idx.cache).0 ≡ some v
      → lookup h es ≡ some v

module _ {r : Roaring} (codec : Bincode (Bitmaps r)) {l : Lru (Bitmaps r)} (laws : IsLru l) where
  -- The outcome of a lookup: the answer, and an index with the same delta and snapshot.
  pub record Answers (idx : ExactIndex r l) (es : List (ℕ × Bitmaps r)) (h : ℕ)
      (found : Result FormatError (Option (Bitmaps r) × ExactIndex r l)) : Type 0 where
    pub after : ExactIndex r l
    pub answer : found ≡ ok (view idx.delta es h, after)
    pub delta : after.delta ≡ idx.delta
    pub snapshot : after.snapshot ≡ idx.snapshot
    pub valid : IsValid codec after es

  module _ (t : Text) (es : List (ℕ × Bitmaps r)) (h : ℕ) where
    -- the answer of the snapshot, which goes into the cache
    remember-Answers :
        (idx : ExactIndex r l) (found : Option (Bitmaps r))
        → IsValid codec idx es
        → lookup h idx.delta ≡ none
        → lookup h es ≡ found
        → Answers idx es h (remember t codec idx h (ok found))
    unfolding remember
    remember-Answers idx none v fresh below = record {
      after = idx;
      answer = rw (fresh, below);
      delta = refl;
      snapshot = refl;
      valid = v;
    }
    remember-Answers idx (some bitmaps) v fresh below = record {
      after = record idx { cache = l.put h bitmaps idx.cache };
      answer = rw (fresh, below);
      delta = refl;
      snapshot = refl;
      valid = record {
        backed = v.backed;
        coherent = λ k w free hit. elim (laws.get-put k h bitmaps w idx.cache hit) [
          | inl (same, value) ↦ rw (same, value) below
          | inr old ↦ v.coherent k w free old
        ];
      };
    }

    get_snapshot-Answers :
        (idx : ExactIndex r l) (snap : Option SnapshotReader)
        → IsBacked codec snap es
        → IsValid codec idx es
        → lookup h idx.delta ≡ none
        → Answers idx es h (get_snapshot t codec idx h snap)
    unfolding get_snapshot
    get_snapshot-Answers idx none backed v fresh = record {
      after = idx;
      answer = rw (fresh, backed) (unfold lookup in refl);
      delta = refl;
      snapshot = refl;
      valid = v;
    }
    get_snapshot-Answers idx (some snap) backed v fresh =
        rw (backed.lookups h) (remember-Answers idx (lookup h es) v fresh refl)

    -- reading the cache moves the key to the front, and changes no value
    touch-IsValid :
        (idx : ExactIndex r l) (cache : l.Cache)
        → (l.get h idx.cache).1 ≡ cache
        → IsValid codec idx es
        → IsValid codec (record idx { cache = cache }) es
    touch-IsValid idx cache read v = record {
      backed = v.backed;
      coherent = λ k w free hit.
          v.coherent k w free
            (sym (laws.get-get k h idx.cache) ∙ ap (λ d. (l.get k d).0) read ∙ hit);
    }

    get_cached-Answers :
        (idx : ExactIndex r l) (hit : Option (Bitmaps r)) (cache : l.Cache)
        → l.get h idx.cache ≡ (hit, cache)
        → IsValid codec idx es
        → lookup h idx.delta ≡ none
        → Answers idx es h (get_cached t codec idx h (hit, cache))
    unfolding get_cached
    get_cached-Answers idx (some bitmaps) cache read v fresh = record {
      after = record idx { cache = cache };
      answer = rw (fresh, v.coherent h bitmaps fresh (ap (λ p. p.0) read));
      delta = refl;
      snapshot = refl;
      valid = touch-IsValid idx cache (ap (λ p. p.1) read) v;
    }
    get_cached-Answers idx none cache read v fresh =
        let a =
          get_snapshot-Answers (record idx { cache = cache }) idx.snapshot v.backed
            (touch-IsValid idx cache (ap (λ p. p.1) read) v) fresh in
        record {
          after = a.after;
          answer = a.answer;
          delta = a.delta;
          snapshot = a.snapshot;
          valid = a.valid;
        }

    get_delta-Answers :
        (idx : ExactIndex r l) (entry : Option (DeltaEntry (Bitmaps r)))
        → lookup h idx.delta ≡ entry
        → IsValid codec idx es
        → Answers idx es h (get_delta t codec idx h entry)
    unfolding get_delta
    get_delta-Answers idx (some (replace bitmaps)) at v = record {
      after = idx;
      answer = rw at;
      delta = refl;
      snapshot = refl;
      valid = v;
    }
    get_delta-Answers idx (some removed) at v = record {
      after = idx;
      answer = rw at;
      delta = refl;
      snapshot = refl;
      valid = v;
    }
    get_delta-Answers idx none at v =
        get_cached-Answers idx (l.get h idx.cache).0 (l.get h idx.cache).1 refl v at

  -- With a lawful cache, on a valid index `get` returns the bitmaps that the view has for the hash of the value, and
  -- leaves a valid index with the same delta and snapshot, whatever the cache has evicted.
  pub get-Answers :
      (t : Text) (idx : ExactIndex r l) (es : List (ℕ × Bitmaps r)) (value : Str)
      → IsValid codec idx es
      → Answers idx es (hash t value) (get t codec idx value)
  unfolding get
  get-Answers t idx es value v =
      get_delta-Answers t es (hash t value) idx (lookup (hash t value) idx.delta) refl v
