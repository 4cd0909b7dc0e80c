-- ===== src/Rooms/Snapshot/Transfer.antt =====
-- src/rooms/snapshot_transfer.rs. Every call returns the state too, since a refused first chunk
-- leaves its snapshot id and frame behind. The index is a u32, the byte count a u64.
use sn_netplay_serv.Base.{
  ltb, leb, ◌==◌, if◌then◌else◌, u32_max, checked_add, length, get_elem?, Result, ◌>>◌, fail_if,
  map_err, ok, err, ℕ, ◌+◌, Bool, true, false, not, ◌&&◌, ◌||◌, Option, none, some, List, [], ◌∷◌,
  ◌++◌,
}
use sn_netplay_serv.Base.Bytes.{bytes_eq}
use sn_netplay_serv.Base.Maps.{Text}
use sn_netplay_serv.Rooms.Snapshot.{
  SnapshotLimits, SnapshotManifest, SnapshotChunk, validate_chunk, validate_manifest, hex,
}
use sn_netplay_serv.Rooms.Types.{RoomError, snapshot_invalid}

pub record SnapshotTransferState : Type 0 where
  pub repair_frame : Option ℕ
  pub snapshot_id : Option Text
  pub next_chunk_index : ℕ
  pub received_bytes : ℕ
  pub hasher : List ℕ
  pub accepted_chunk_digests : List (List ℕ)

-- `SnapshotTransferState::new`
unfoldable pub new_transfer : SnapshotTransferState
new_transfer = record {
  repair_frame = none;
  snapshot_id = none;
  next_chunk_index = 0;
  received_bytes = 0;
  hasher = [];
  accepted_chunk_digests = [];
}

-- The match on the identity of the transfer: `none` where the chunk belongs to another snapshot.
unfoldable pub identify : SnapshotTransferState → Text → ℕ → Option SnapshotTransferState
identify s id frame = elim s.snapshot_id [
  | some i ↦ elim s.repair_frame [
    | some f ↦ if bytes_eq i id && (f == frame) then some s else none
    | none ↦ none
  ]
  | none ↦ elim s.repair_frame [
    | some f ↦ none
    | none ↦ some (record s { snapshot_id = some id; repair_frame = some frame })
  ]
]

-- `accepted_chunk_digests.get(index).is_some_and(|accepted| accepted == &digest)`
unfoldable pub digest_matches : List (List ℕ) → ℕ → List ℕ → Bool
digest_matches digests index digest = elim (get_elem? digests index) [
  | none ↦ false
  | some accepted ↦ bytes_eq accepted digest
]

-- `self.snapshot_id == Some(id) && self.repair_frame == Some(frame)`
unfoldable pub is_for : SnapshotTransferState → Text → ℕ → Bool
is_for s id frame =
    elim s.snapshot_id [ none ↦ false | some i ↦ bytes_eq i id ]
    && elim s.repair_frame [ none ↦ false | some f ↦ f == frame ]

module _ (sha256 : List ℕ → List ℕ) where
  -- The chunk at the next index: the checks on the totals, then the updates in their order.
  unfoldable pub append_chunk :
      SnapshotTransferState
      → SnapshotChunk
      → SnapshotLimits
      → SnapshotTransferState × Result RoomError Bool
  append_chunk s chunk limits = elim (checked_add s.received_bytes (length chunk.bytes)) [
    | none ↦ (s, err snapshot_invalid)
    | some next_total ↦
        if ltb limits.max_total_bytes next_total
        then (s, err snapshot_invalid)
        else let fed = record s {
          hasher = s.hasher ++ chunk.bytes;
          accepted_chunk_digests = s.accepted_chunk_digests ++ sha256 chunk.bytes ∷ [];
          received_bytes = next_total;
        } in
          if ltb s.next_chunk_index u32_max
          then (record fed { next_chunk_index = s.next_chunk_index + 1 }, ok true)
          else (fed, err snapshot_invalid)
  ]

  -- `SnapshotTransferState::accept_chunk`
  unfoldable pub accept_chunk :
      SnapshotTransferState
      → SnapshotChunk
      → SnapshotLimits
      → SnapshotTransferState × Result RoomError Bool
  unfolding append_chunk
  accept_chunk s chunk limits = elim (validate_chunk chunk limits) [
    | err e ↦ (s, err snapshot_invalid)
    | ok u ↦ elim (identify s chunk.snapshot_id chunk.repair_frame) [
      | none ↦ (s, err snapshot_invalid)
      | some t ↦
          if ltb chunk.index t.next_chunk_index
          then if digest_matches t.accepted_chunk_digests chunk.index (sha256 chunk.bytes)
            then (t, ok false)
            else (t, err snapshot_invalid)
          else if chunk.index == t.next_chunk_index
          then append_chunk t chunk limits
          else (t, err snapshot_invalid)
    ]
  ]

  -- `SnapshotTransferState::is_duplicate_chunk`
  unfoldable pub is_duplicate_chunk : SnapshotTransferState → SnapshotChunk → Bool
  unfolding is_for
  is_duplicate_chunk s chunk =
      if not (is_for s chunk.snapshot_id chunk.repair_frame) || leb s.next_chunk_index chunk.index
      then false
      else digest_matches s.accepted_chunk_digests chunk.index (sha256 chunk.bytes)

  -- `SnapshotTransferState::complete`
  unfoldable pub complete :
      SnapshotTransferState → SnapshotManifest → SnapshotLimits → Result RoomError (Unit {0})
  unfolding is_for
  complete s manifest limits = do
    map_err (validate_manifest manifest limits) snapshot_invalid
    fail_if (not (is_for s manifest.snapshot_id manifest.repair_frame)) snapshot_invalid
    fail_if (not (manifest.total_bytes == s.received_bytes)) snapshot_invalid
    fail_if (not (bytes_eq (hex (sha256 s.hasher)) manifest.sha256)) snapshot_invalid
