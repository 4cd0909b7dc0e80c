-- ===== src/Rooms/Snapshot.antt =====
-- src/protocol/snapshot.rs and src/rooms/snapshot_transfer.rs: chunked snapshots. SHA-256 is not in
-- the repository: a function from bytes to the 32 digest bytes is a parameter. A running hasher is
-- the bytes that it was fed, so that its digest is that function's value on them.
pub mod Transfer
use sn_netplay_serv.Base.{
  ltb, leb, ◌==◌, if◌then◌else◌, length, all, is_empty, Result, ◌>>=◌, ◌>>◌, fail_if, ℕ, ◌+◌, ◌-◌,
  ◌/◌, ◌%◌, Bool, not, ◌&&◌, ◌||◌, List, [], ◌∷◌,
}
use sn_netplay_serv.Base.Bytes.{bytes_eq}
use sn_netplay_serv.Base.Maps.{Text}
use sn_netplay_serv.Protocol.Limits.{max_snapshot_chunk_bytes, max_snapshot_bytes}

pub record SnapshotLimits : Type 0 where
  pub max_chunk_bytes : ℕ
  pub max_total_bytes : ℕ

-- `SnapshotLimits::default`
abbrev pub default_snapshot_limits : SnapshotLimits
default_snapshot_limits = record {
  max_chunk_bytes = max_snapshot_chunk_bytes;
  max_total_bytes = max_snapshot_bytes;
}

pub record SnapshotManifest : Type 0 where
  pub snapshot_id : Text
  pub repair_frame : ℕ
  pub total_bytes : ℕ
  pub sha256 : Text

pub record SnapshotChunk : Type 0 where
  pub snapshot_id : Text
  pub repair_frame : ℕ
  pub index : ℕ
  pub bytes : List ℕ

pub data SnapshotError : Type 0 where
  chunk_too_large total_too_large size_mismatch : SnapshotError
  checksum_mismatch invalid_checksum invalid_snapshot_id : SnapshotError

abbrev within : ℕ → ℕ → ℕ → Bool
within lo hi b = leb lo b && leb b hi

-- `u8::is_ascii_hexdigit` and `u8::is_ascii_alphanumeric`
unfoldable pub is_hex_digit : ℕ → Bool
is_hex_digit b = within b'0' b'9' b || within b'a' b'f' b || within b'A' b'F' b

unfoldable pub is_alphanumeric : ℕ → Bool
is_alphanumeric b = within b'0' b'9' b || within b'a' b'z' b || within b'A' b'Z' b

unfoldable pub is_sha256_hex : Text → Bool
unfolding is_hex_digit
is_sha256_hex value = (length value == 64) && all is_hex_digit value

unfoldable pub is_snapshot_id : Text → Bool
unfolding is_alphanumeric
is_snapshot_id value =
    not (is_empty value)
    && (leb (length value) 64 && all (λ b. is_alphanumeric b || (b == b'-') || (b == b'_')) value)

-- `SnapshotChunk::validate`
unfoldable pub validate_chunk : SnapshotChunk → SnapshotLimits → Result SnapshotError (Unit {0})
validate_chunk chunk limits = do
  fail_if (not (is_snapshot_id chunk.snapshot_id)) invalid_snapshot_id
  fail_if (ltb limits.max_chunk_bytes (length chunk.bytes)) chunk_too_large

-- `SnapshotManifest::validate`
unfoldable pub validate_manifest :
    SnapshotManifest → SnapshotLimits → Result SnapshotError (Unit {0})
validate_manifest manifest limits = do
  fail_if (not (is_snapshot_id manifest.snapshot_id)) invalid_snapshot_id
  fail_if (ltb limits.max_total_bytes manifest.total_bytes) total_too_large
  fail_if (not (is_sha256_hex manifest.sha256)) invalid_checksum

abbrev hex_digit : ℕ → ℕ
hex_digit d = if ltb d 10 then b'0' + d else b'a' + (d - 10)

-- `format!("{checksum:x}")`: two lowercase digits for each byte.
unfoldable pub hex : List ℕ → Text
hex [] = []
hex (b ∷ bs) = hex_digit (b / 16) ∷ hex_digit (b % 16) ∷ hex bs

-- `SnapshotManifest::validate_bytes`
unfoldable pub validate_bytes :
    (List ℕ → List ℕ) → SnapshotManifest → List ℕ → SnapshotLimits → Result SnapshotError (Unit {0})
validate_bytes sha256 manifest bytes limits = do
  validate_manifest manifest limits
  fail_if (not (length bytes == manifest.total_bytes)) size_mismatch
  fail_if (not (bytes_eq (hex (sha256 bytes)) manifest.sha256)) checksum_mismatch
