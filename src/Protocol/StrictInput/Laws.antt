-- ===== src/Protocol/StrictInput/Laws.antt =====
-- What the codecs of src/protocol/strict_input share: reading back a header and a player index.
use mathlib.Core.List.{append_assoc}
use sn_netplay_serv.Base.{
  ltb-false, ==-refl, ==_iff, IsU64, length, take, drop, length-append, take-append, ok, ℕ, ◌+◌,
  ◌≤◌, ◌<◌, ◌≡◌, refl, ap, ◌∙◌, List, [], ◌∷◌, ◌++◌, arith,
}
use sn_netplay_serv.Base.Bytes.{
  bytes_eq_refl, to_be, length-to_be, drop-advance, drop-to_be, read_be-to_be, get_or-drop,
  get_elem?-drop,
}
use sn_netplay_serv.Protocol.Limits.{mvp_room_capacity}
use sn_netplay_serv.Protocol.StrictInput.Common.{
  write_header, validate_message_header, validate_exact_message_header, read_player_index, read_u64,
  malformed,
}

-- A header in front of `rest`, with a magic of four bytes.
pub record Headed (p magic : List ℕ) (ty re se : ℕ) (rest : List ℕ) : Type 0 where
  pub shape : p ≡ write_header magic ty re se ++ rest
  pub four : length magic ≡ 4
  pub fits_room : IsU64 re
  pub fits_session : IsU64 se

module _ {p rest : List ℕ} {magic : List ℕ} {ty re se : ℕ} (h : Headed p magic ty re se rest) where
  at_0 : p ≡ magic ++ (ty ∷ (to_be 8 re ++ (to_be 8 se ++ rest)))
  unfolding write_header
  at_0 =
      h.shape
      ∙ append_assoc magic (ty ∷ (to_be 8 re ++ to_be 8 se)) rest
      ∙ ap (λ (l : List ℕ). magic ++ ty ∷ l) (append_assoc (to_be 8 re) (to_be 8 se) rest)

  at_4 : drop 4 p ≡ ty ∷ (to_be 8 re ++ (to_be 8 se ++ rest))
  at_4 = rw h.four at (drop-advance p magic _ 0 at_0)

  at_5 : drop 5 p ≡ to_be 8 re ++ (to_be 8 se ++ rest)
  at_5 = drop-advance p (ty ∷ []) _ 4 at_4

  pub header-room_epoch : read_u64 p 5 ≡ ok re
  unfolding read_u64
  header-room_epoch = read_be-to_be malformed 8 re p _ 5 (omega arith) h.fits_room at_5

  at_13 : drop 13 p ≡ to_be 8 se ++ rest
  at_13 = drop-to_be p _ 8 re 5 at_5

  pub header-session_epoch : read_u64 p 13 ≡ ok se
  unfolding read_u64
  header-session_epoch = read_be-to_be malformed 8 se p _ 13 (omega arith) h.fits_session at_13

  pub header-rest : drop 21 p ≡ rest
  header-rest = drop-to_be p _ 8 se 13 at_13

  pub header-length : length p ≡ 21 + length rest
  unfolding write_header
  header-length = omega (
    arith,
    h.four,
    ap length h.shape,
    length-append (write_header magic ty re se) rest,
    length-append magic (ty ∷ (to_be 8 re ++ to_be 8 se)),
    length-append (to_be 8 re) (to_be 8 se),
    length-to_be 8 re,
    length-to_be 8 se,
  )

  magic-eq : take 4 p ≡ magic
  magic-eq = rw h.four at (ap (take (length magic)) at_0 ∙ take-append magic _)

  -- The header test passes on a message of the least length.
  pub header-valid :
      (minimum : ℕ) → minimum ≤ length p → validate_message_header p minimum magic ty ≡ ok tt
  unfolding validate_message_header
  header-valid minimum le =
      rw (ltb-false (length p) minimum le, magic-eq, bytes_eq_refl magic)
        (rw (get_or-drop p _ ty 4 0 at_4, ==-refl ty) refl)

  pub header-valid_exact :
      (expected : ℕ)
      → length p ≡ expected
      → validate_exact_message_header p expected magic ty ≡ ok tt
  unfolding validate_exact_message_header
  header-valid_exact expected e =
      rw ((==_iff (length p) expected).1 e) (header-valid expected (omega arith))

-- The player index that stands at `offset`.
pub read_player_index-at :
    (p rest : List ℕ) (b offset : ℕ)
    → drop offset p ≡ b ∷ rest
    → b < mvp_room_capacity
    → read_player_index p offset ≡ ok b
unfolding read_player_index
read_player_index-at p rest b offset h fits = rw (get_elem?-drop p rest b offset h) (ground arith)
