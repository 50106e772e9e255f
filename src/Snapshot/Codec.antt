-- ===== src/Snapshot/Codec.antt =====
-- What the snapshot files take from the bincode crate: how a list of `(segment_id, bitmap)` pairs
-- becomes bytes. The crate is not part of the repository, so it is a parameter of the model.
use bittice.Prelude.{ℕ, ◌≡◌, Option, some, List}

pub record Bincode {ℓ} (V : Type ℓ) : Type ℓ where
  pub serialize : V → Option (List ℕ)
  pub deserialize : List ℕ → Option V

-- bincode's documented round trip: what was serialized is deserialized to the same value.
pub record IsLawful {ℓ} {V : Type ℓ} (c : Bincode V) : Type ℓ where
  pub deserialize-serialize :
      (v : V) (bytes : List ℕ) → c.serialize v ≡ some bytes → c.deserialize bytes ≡ some v
