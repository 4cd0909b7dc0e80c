-- ===== src/Base/Chars.antt =====
-- Texts as the list of their characters' code points, with the operations of Rust's `str` and
-- `char` that the source uses.
use Prim.Native.Char.{code}
use Prim.Native.Nat.{ℕ, ◌+◌, ◌-◌}
use Prim.Native.String.{String}
use mathlib.Core.Bool.{Bool, false, not, ◌&&◌, ◌||◌}
use mathlib.Core.List.{List, [], ◌∷◌, ◌++◌, map, reverse}
use sn_netplay_serv.Base.Lists.{filter, is_empty}
use sn_netplay_serv.Base.Tests.{ltb, leb, ◌==◌, if◌then◌else◌}

abbrev pub Chars : Type 0
Chars = List ℕ

-- The characters of an ASCII literal.
abbrev pub codes : String → Chars
codes String.[] = []
codes (String.◌∷◌ c s) = code c ∷ codes s

-- `char::is_whitespace`, the characters with the property White_Space.
abbrev pub is_whitespace : ℕ → Bool
is_whitespace c =
    (leb 9 c && leb c 13)
    || (c == 32)
    || (c == 133)
    || (c == 160)
    || (c == 5760)
    || (leb 8192 c && leb c 8202)
    || (c == 8232)
    || (c == 8233)
    || (c == 8239)
    || (c == 8287)
    || (c == 12288)

-- `char::is_ascii_whitespace`
abbrev pub is_ascii_whitespace : ℕ → Bool
is_ascii_whitespace c = (c == 32) || (c == 9) || (c == 10) || (c == 12) || (c == 13)

-- `char::to_ascii_uppercase`
abbrev pub to_ascii_uppercase : ℕ → ℕ
to_ascii_uppercase c = if leb 97 c && leb c 122 then c - 32 else c

-- `char::is_ascii_hexdigit`
abbrev pub is_ascii_hexdigit : ℕ → Bool
is_ascii_hexdigit c = (leb 48 c && leb c 57) || (leb 65 c && leb c 70) || (leb 97 c && leb c 102)

-- `char::len_utf8` and `str::len`, in bytes.
abbrev pub len_utf8 : ℕ → ℕ
len_utf8 c = if ltb c 128 then 1 else if ltb c 2048 then 2 else if ltb c 65536 then 3 else 4

unfoldable pub byte_length : Chars → ℕ
byte_length [] = 0
byte_length (c ∷ cs) = len_utf8 c + byte_length cs

unfoldable pub trim_start : Chars → Chars
trim_start [] = []
trim_start (c ∷ cs) = if is_whitespace c then trim_start cs else c ∷ cs

-- `str::trim`
unfoldable pub trim : Chars → Chars
unfolding trim_start
trim cs = reverse (trim_start (reverse (trim_start cs)))

push_char : ℕ → List Chars → List Chars
push_char c [] = (c ∷ []) ∷ []
push_char c (line ∷ more) = (c ∷ line) ∷ more

starts_line : Chars → Bool
starts_line [] = false
starts_line (c ∷ cs) = c == 10

-- `str::lines`: a line ends at `\n`, and a `\r` before it belongs to neither line.
unfoldable pub lines : Chars → List Chars
unfolding push_char starts_line
lines [] = []
lines (c ∷ cs) =
    let rest = lines cs in
    if c == 10 then [] ∷ rest else if (c == 13) && starts_line cs then rest else push_char c rest

-- `lines.join(" ")`
unfoldable pub join_words : List Chars → Chars
join_words [] = []
join_words (w ∷ []) = w
join_words (w ∷ v ∷ more) = w ++ 32 ∷ join_words (v ∷ more)

-- The trimmed lines that are not empty, on one line.
unfoldable pub single_line : Chars → Chars
unfolding trim lines join_words
single_line cs = trim (join_words (filter (λ line. not (is_empty line)) (map trim (lines cs))))
