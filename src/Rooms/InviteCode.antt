-- ===== src/Rooms/InviteCode.antt =====
-- src/rooms/invite_code.rs: the codes players type to find a room or a lobby.
pub mod Laws
use sn_netplay_serv.Base.{
  ◌==◌, if◌then◌else◌, length, get_or, take, drop, all, filter, Result, ok, err, ℕ, ◌%◌, Bool, not,
  ◌||◌, List, ◌∷◌, ◌++◌, map,
}
use sn_netplay_serv.Base.Chars.{Chars, codes, is_ascii_whitespace, to_ascii_uppercase, byte_length}
use sn_netplay_serv.Base.Maps.{contains}
use sn_netplay_serv.Rooms.Types.{RoomError, invalid_invite_code}

abbrev pub invite_code_len : ℕ
invite_code_len = 6

abbrev pub invite_alphabet : Chars
invite_alphabet = codes "23456789ABCDEFGHJKLMNPQRSTUVWXYZ"

-- `InviteCode`, the normalized characters.
abbrev pub InviteCode : Type 0
InviteCode = Chars

-- `INVITE_ALPHABET.contains(&byte)`
unfoldable pub is_invite_char : ℕ → Bool
unfolding contains
is_invite_char c = contains c invite_alphabet

-- The characters that `parse` skips.
unfoldable pub is_separator : ℕ → Bool
is_separator c = is_ascii_whitespace c || (c == 45)

-- `InviteCode::parse`; what is left of an accepted text is ASCII, so its length in bytes is tested.
unfoldable pub parse_invite_code : Chars → Result RoomError InviteCode
unfolding byte_length is_invite_char is_separator
parse_invite_code value =
    let normalized = map to_ascii_uppercase (filter (λ c. not (is_separator c)) value) in
    if not (byte_length normalized == invite_code_len) || not (all is_invite_char normalized)
    then err invalid_invite_code
    else ok normalized

-- `display`, `format!("{}-{}", &self.0[..4], &self.0[4..])`
unfoldable pub display_invite_code : InviteCode → Chars
display_invite_code c = take 4 c ++ 45 ∷ drop 4 c

-- `UuidInviteCodeGenerator::generate`, from the sixteen random bytes of the UUID.
unfoldable pub generate_invite_code : List ℕ → InviteCode
generate_invite_code bytes =
    map (λ byte. get_or invite_alphabet (byte % length invite_alphabet) 0)
      (take invite_code_len bytes)
