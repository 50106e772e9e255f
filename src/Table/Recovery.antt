-- ===== src/Table/Recovery.antt =====
-- Replaying the log when a table is opened (`replay_wal` of src/core/storage/table.rs).
pub mod Replayed
use bittice.Prelude.{
  Str, ℕ, Bool, true, false, not, ◌&&◌, ◌||◌, ◌==◌, if◌then◌else◌, Option, none, some, List, [],
  ◌∷◌, length, Result, ok, ◌>>=◌,
}
use bittice.Bitmaps.{Roaring}
use bittice.Canonical.{Text}
use bittice.Snapshot.Codec.{Bincode}
use bittice.Wal.{WalOperation, WalError, Wal, replay, truncate, flush_writes}
use bittice.PrimaryIndex.{PrimaryIndex, Location, get, insert_key, remove_key}
use bittice.Segment.{Row, as_u32, append_record}
use bittice.Table.{Table, Json, pk_columns, row_pk_value, tombstone, insert}

-- What the operating system gives to `Uuid::new_v4` in the calls of `insert`.
pub record Uuids : Type 0 where
  pub uuid : Str
  pub uuid_read : Str

module _ {r : Roaring} (text : Text) where
  -- `if (cur_seg, cur_local) != (seg_id, local_id)`, and the tombstone.
  unfoldable pub tombstone_moved : Location → Option Location → Table r → Table r
  unfolding tombstone
  tombstone_moved logged none t = t
  tombstone_moved (seg_id, local_id) (some (cur_seg, cur_local)) t =
      if (cur_seg == seg_id) && (cur_local == local_id) then t else tombstone (cur_seg, cur_local) t

  -- The branch of `Delete`.
  unfoldable pub replay_delete : Str → Location → Table r → Table r
  unfolding tombstone_moved tombstone
  replay_delete id logged t =
      let (index, primary_loc) = remove_key text t.primary_index (text.nfc id) in
      tombstone_moved logged primary_loc (tombstone logged (record t { primary_index = index }))

  -- The end of the branch of `Update`: the row is appended, without the log.
  unfoldable pub reappend : Str → Row → Table r → Table r
  unfolding append_record
  reappend pk_val row t =
      let local_id = as_u32 t.active_segment.segment.record_count in
      record t {
        active_segment = append_record r row t.active_segment;
        primary_index =
            (insert_key text t.primary_index pk_val (t.active_segment.segment.id, local_id)).0;
      }

  -- `continue` where the index has another location than the logged one.
  unfoldable pub replay_moved : Str → Row → Location → Table r → Option Location → Table r
  unfolding reappend
  replay_moved pk_val row logged t none = reappend pk_val row t
  replay_moved pk_val row (seg_id, local_id) t (some (cur_seg, cur_local)) =
      if not (cur_seg == seg_id) || not (cur_local == local_id) then t else reappend pk_val row t

  unfoldable pub replay_update : Str → Row → Location → Table r → Table r
  unfolding replay_moved tombstone row_pk_value pk_columns
  replay_update uuid row logged t =
      let marked = tombstone logged t in
      let pk_val = row_pk_value text uuid (pk_columns marked) row in
      replay_moved pk_val row logged marked (get text marked.primary_index pk_val)

  module _ (codec : Bincode WalOperation) (json : Json) where
    unfoldable pub replay_op : Uuids → WalOperation → Table r → Result WalError (Table r)
    unfolding replay_delete replay_update insert
    replay_op u (WalOperation.insert id row_bytes) t =
        insert text codec json u.uuid u.uuid_read (json.from_slice row_bytes) t
    replay_op u (WalOperation.delete id seg_id local_id) t =
        ok (replay_delete id (seg_id, local_id) t)
    replay_op u (WalOperation.update id row_bytes seg_id local_id) t =
        ok (replay_update u.uuid (json.from_slice row_bytes) (seg_id, local_id) t)

    -- The loop, with what each round gets from `Uuid::new_v4`.
    unfoldable pub replay_ops :
        (ℕ → Uuids) → List WalOperation → Table r → Result WalError (Table r)
    unfolding replay_op
    replay_ops us [] t = ok t
    replay_ops us (op ∷ ops) t = do t' ← replay_op (us (length ops)) op t; replay_ops us ops t'

    -- `flush_writes` and `truncate`, after the primary index has been saved.
    abbrev checkpoint : Table r → Table r
    checkpoint t = record t { wal = truncate (flush_writes t.wal) }

    abbrev replay_all : (ℕ → Uuids) → List WalOperation → Table r → Result WalError (Table r)
    replay_all us [] t = ok t
    replay_all us (op ∷ ops) t = do t' ← replay_ops us (op ∷ ops) t; ok (checkpoint t')

    unfoldable pub replay_wal : (ℕ → Uuids) → Table r → Result WalError (Table r)
    unfolding replay_ops truncate flush_writes
    replay_wal us t = do ops ← replay codec (some t.wal.file); replay_all us ops t
