-- ===== src/Rooms/InviteCode/Laws.antt =====
-- Invite codes, shown and typed (src/rooms/invite_code.rs).
use mathlib.Core.List.{append-nil}
use mathlib.Core.Path.{subst}
use sn_netplay_serv.Base.{
  leb, ◌==◌, ==_iff, Bool-cases, take, drop, all, filter, take-append-drop, ok, ℕ, zero, suc, ◌≤◌,
  ◌≡◌, refl, sym, ap, ◌∙◌, inl, inr, Bool, true, false, not, ◌&&◌, List, [], ◌∷◌, ◌++◌, map, arith,
}
use sn_netplay_serv.Base.Chars.{Chars, to_ascii_uppercase, byte_length}
use sn_netplay_serv.Base.Maps.{contains}
use sn_netplay_serv.Rooms.InviteCode.{
  invite_alphabet, InviteCode, is_invite_char, is_separator, parse_invite_code, display_invite_code,
}

contains-all :
    (p : ℕ → Bool) (c : ℕ) (xs : List ℕ) → contains c xs ≡ true → all p xs ≡ true → p c ≡ true
unfolding contains
contains-all p c [] h every = absurd (cc)
contains-all p c (x ∷ xs) h every =
    let first : p x ≡ true = ground arith in
    let rest : all p xs ≡ true = ground arith in
    elim (Bool-cases (x == c)) [
      | inl same ↦ subst (λ y. p y ≡ true) ((==_iff x c).0 same) first
      | inr other ↦ contains-all p c xs (ground arith) rest
    ]

-- The characters of a code lie between `2` and `Z`, so `parse` neither skips nor changes them.
is_invite_char-plain :
    (c : ℕ) → is_invite_char c ≡ true → (is_separator c ≡ false) × (to_ascii_uppercase c ≡ c)
unfolding is_invite_char is_separator
is_invite_char-plain c h =
    let range : (leb 50 c && leb c 90) ≡ true =
      contains-all (λ x. leb 50 x && leb x 90) c invite_alphabet h refl in
    let low : 50 ≤ c = ground arith in
    let high : c ≤ 90 = ground arith in (ground arith, ground arith)

-- What `parse` reads from a text.
abbrev pub normalized : Chars → Chars
normalized cs = map to_ascii_uppercase (filter (λ c. not (is_separator c)) cs)

normalized-plain :
    (xs ys : Chars) → all is_invite_char xs ≡ true → normalized (xs ++ ys) ≡ xs ++ normalized ys
normalized-plain [] ys h = refl
normalized-plain (x ∷ xs) ys h =
    let first : is_invite_char x ≡ true = ground arith in
    let rest : all is_invite_char xs ≡ true = ground arith in
    let (keeps, same) = is_invite_char-plain x first in
    rw (keeps, same) (ap (◌∷◌ x) (normalized-plain xs ys rest))

all-take : (p : ℕ → Bool) (n : ℕ) (xs : List ℕ) → all p xs ≡ true → all p (take n xs) ≡ true
all-take p zero xs h = refl
all-take p (suc n) [] h = refl
all-take p (suc n) (x ∷ xs) h =
    let rest : all p xs ≡ true = ground arith in ground (arith, all-take p n xs rest)

all-drop : (p : ℕ → Bool) (n : ℕ) (xs : List ℕ) → all p xs ≡ true → all p (drop n xs) ≡ true
all-drop p zero xs h = h
all-drop p (suc n) [] h = refl
all-drop p (suc n) (x ∷ xs) h = all-drop p n xs (ground arith)

normalized-display :
    (c : InviteCode) → all is_invite_char c ≡ true → normalized (display_invite_code c) ≡ c
unfolding display_invite_code is_separator
normalized-display c h =
    normalized-plain (take 4 c) (45 ∷ drop 4 c) (all-take is_invite_char 4 c h)
    ∙ ap (λ zs. take 4 c ++ normalized zs) (sym (append-nil (drop 4 c)))
    ∙ ap (λ zs. take 4 c ++ zs)
        (normalized-plain (drop 4 c) [] (all-drop is_invite_char 4 c h) ∙ append-nil (drop 4 c))
    ∙ take-append-drop 4 c

-- A code that was read from what a player typed is six characters of the alphabet, and what it is
-- shown as is read as the same code again.
pub parse-display_invite_code :
    (typed : Chars) (c : InviteCode)
    → parse_invite_code typed ≡ ok c
    → (byte_length c ≡ 6)
      × (all is_invite_char c ≡ true)
      × (parse_invite_code (display_invite_code c) ≡ ok c)
unfolding parse_invite_code
parse-display_invite_code typed c e =
    let same : normalized typed ≡ c = ground arith in
    let long : byte_length (normalized typed) ≡ 6 = ground arith in
    let valid : all is_invite_char (normalized typed) ≡ true = ground arith in
    let long' : byte_length c ≡ 6 = ap byte_length (sym same) ∙ long in
    let valid' : all is_invite_char c ≡ true = ap (all is_invite_char) (sym same) ∙ valid in
    (long', valid', rw (normalized-display c valid', parse_invite_code, long', valid') refl)
