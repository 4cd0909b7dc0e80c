-- ===== src/Base/Bytes.antt =====
-- Byte strings, and the fixed-width big-endian integers of Rust's `to_be_bytes`/`from_be_bytes`.
-- `a == b` on byte slices.
use Prim.Native.Nat.{ℕ, zero, suc, ◌+◌, ◌*◌, ◌/◌, ◌%◌, ◌^◌, ◌<◌}
use mathlib.Core.Bool.{Bool, true, false, ◌&&◌}
use mathlib.Core.List.{List, [], ◌∷◌, ◌++◌, append-nil}
use mathlib.Core.Option.{Option, none, some}
use mathlib.Core.Path.{◌≡◌, refl, sym, ap, ◌∙◌}
use native.Mathlib.Nat.{pow-suc}
use native.Mathlib.Omega.{arith}
use sn_netplay_serv.Base.Lists.{
  length, get_elem?, get_or, take, drop, length-append, length-drop, take-append, drop-append,
  drop-drop,
}
use sn_netplay_serv.Base.Results.{Result, ◌>>=◌, ok_or, ok}
use sn_netplay_serv.Base.Tests.{leb, ◌==◌, if◌then◌else◌, ==-refl, ==_iff}

abbrev pub bytes_eq : List ℕ → List ℕ → Bool
bytes_eq [] [] = true
bytes_eq (x ∷ xs) (y ∷ ys) = (x == y) && bytes_eq xs ys
bytes_eq _ _ = false

pub bytes_eq_refl : (xs : List ℕ) → bytes_eq xs xs ≡ true
bytes_eq_refl [] = refl
bytes_eq_refl (x ∷ xs) = rw (==-refl x) (bytes_eq_refl xs)

pub bytes_eq_to : (xs ys : List ℕ) → bytes_eq xs ys ≡ true → xs ≡ ys
bytes_eq_to [] [] h = refl
bytes_eq_to [] (y ∷ ys) h = absurd (cc)
bytes_eq_to (x ∷ xs) [] h = absurd (cc)
bytes_eq_to (x ∷ xs) (y ∷ ys) h =
    let both : ((x == y) ≡ true) × (bytes_eq xs ys ≡ true) = ground arith in
    let e : x ≡ y = (==_iff x y).0 both.0 in let r = bytes_eq_to xs ys both.1 in rw (e, r) refl

-- `payload.get(offset..offset + n)`.
abbrev pub slice? {ℓ} : {A : Type ℓ} → List A → ℕ → ℕ → Option (List A)
slice? p offset n = if leb (offset + n) (length p) then some (take n (drop offset p)) else none

-- `v.to_be_bytes()` for an integer of `w` bytes.
unfoldable pub to_be : ℕ → ℕ → List ℕ
to_be zero v = []
to_be (suc w) v = to_be w (v / 256) ++ (v % 256) ∷ []

from_be_acc : ℕ → List ℕ → ℕ
from_be_acc acc [] = acc
from_be_acc acc (b ∷ bs) = from_be_acc (acc * 256 + b) bs

-- `from_be_bytes`.
pub from_be : List ℕ → ℕ
unfolding from_be_acc
from_be bs = from_be_acc 0 bs

from_be_acc-append :
    (acc : ℕ) (xs : List ℕ) (b : ℕ) → from_be_acc acc (xs ++ b ∷ []) ≡ from_be_acc acc xs * 256 + b
unfolding from_be_acc
from_be_acc-append acc [] b = refl
from_be_acc-append acc (x ∷ xs) b = from_be_acc-append (acc * 256 + x) xs b

pub from_be-to_be : (w v : ℕ) → v < 256 ^ w → from_be (to_be w v) ≡ v
unfolding from_be to_be
from_be-to_be zero v h = omega arith
from_be-to_be (suc w) v h =
    let h' : v < 256 ^ w * 256 = rw (pow-suc 256 w) at h in
    rw (from_be_acc-append 0 (to_be w (v / 256)) (v % 256))
      (omega (arith, from_be-to_be w (v / 256) (omega arith)))

pub length-to_be : (w v : ℕ) → length (to_be w v) ≡ w
unfolding to_be
length-to_be zero v = refl
length-to_be (suc w) v =
    omega (arith, length-append (to_be w (v / 256)) ((v % 256) ∷ []), length-to_be w (v / 256))

-- A read of `w` big-endian bytes; `e` is the codec's error for a short buffer.
unfoldable pub read_be : {E : Type 0} → E → ℕ → List ℕ → ℕ → Result E ℕ
read_be e w p offset = do bytes ← ok_or (slice? p offset w) e; ok (from_be bytes)

-- Moving a read position: what stands behind `xs` at `offset`.
pub drop-advance {ℓ} :
    {A : Type ℓ} (p xs rest : List A) (offset : ℕ)
    → drop offset p ≡ xs ++ rest
    → drop (offset + length xs) p ≡ rest
drop-advance p xs rest offset h =
    sym (drop-drop (length xs) offset p) ∙ ap (drop (length xs)) h ∙ drop-append xs rest

pub drop-to_be :
    (p rest : List ℕ) (w v offset : ℕ)
    → drop offset p ≡ to_be w v ++ rest
    → drop (offset + w) p ≡ rest
drop-to_be p rest w v offset h = rw (length-to_be w v) at (drop-advance p (to_be w v) rest offset h)

-- A position with something behind it lies inside the buffer.
pub drop-length {ℓ} :
    {A : Type ℓ} (p xs rest : List A) (offset : ℕ)
    → drop offset p ≡ xs ++ rest
    → 0 < length xs
    → offset + length xs + length rest ≡ length p
drop-length p xs rest offset h pos =
    omega (arith, length-drop offset p, ap length h, length-append xs rest)

pub slice-at {ℓ} :
    {A : Type ℓ} (p xs rest : List A) (offset : ℕ)
    → drop offset p ≡ xs ++ rest
    → 0 < length xs
    → slice? p offset (length xs) ≡ some xs
slice-at p xs rest offset h pos =
    let e = drop-length p xs rest offset h pos in
    let inside : leb (offset + length xs) (length p) ≡ true = ground arith in
    rw (inside, h) (ap some (take-append xs rest))

-- A read returns what was written there.
pub read_be-to_be :
    {E : Type 0} (e : E) (w v : ℕ) (p rest : List ℕ) (offset : ℕ)
    → 0 < w
    → v < 256 ^ w
    → drop offset p ≡ to_be w v ++ rest
    → read_be e w p offset ≡ ok v
unfolding read_be
read_be-to_be e w v p rest offset pos fits h =
    let s : slice? p offset w ≡ some (to_be w v) =
      rw (length-to_be w v) at (slice-at p (to_be w v) rest offset h (rw (length-to_be w v) pos)) in
    rw s (ap ok (from_be-to_be w v fits))

pub get_or-drop :
    (p rest : List ℕ) (b offset d : ℕ) → drop offset p ≡ b ∷ rest → get_or p offset d ≡ b
get_or-drop [] rest b zero d h = cc
get_or-drop [] rest b (suc n) d h = cc
get_or-drop (x ∷ p) rest b zero d h = ground arith
get_or-drop (x ∷ p) rest b (suc n) d h = get_or-drop p rest b n d h

pub get_elem?-drop {ℓ} :
    {A : Type ℓ} (p rest : List A) (b : A) (offset : ℕ)
    → drop offset p ≡ b ∷ rest
    → get_elem? p offset ≡ some b
get_elem?-drop [] rest b zero h = cc
get_elem?-drop [] rest b (suc n) h = cc
get_elem?-drop (x ∷ p) rest b zero h = ground arith
get_elem?-drop (x ∷ p) rest b (suc n) h = get_elem?-drop p rest b n h

pub read_be-last :
    {E : Type 0} (e : E) (w v : ℕ) (p : List ℕ) (offset : ℕ)
    → 0 < w
    → v < 256 ^ w
    → drop offset p ≡ to_be w v
    → read_be e w p offset ≡ ok v
read_be-last e w v p offset pos fits h =
    read_be-to_be e w v p [] offset pos fits (h ∙ sym (append-nil (to_be w v)))

-- The same with the new position named.
pub drop-to {ℓ} :
    {A : Type ℓ} (p xs rest : List A) (offset next : ℕ)
    → drop offset p ≡ xs ++ rest
    → offset + length xs ≡ next
    → drop next p ≡ rest
drop-to p xs rest offset next h e = rw e at (drop-advance p xs rest offset h)

pub drop-to_field :
    (p rest : List ℕ) (w v offset next : ℕ)
    → drop offset p ≡ to_be w v ++ rest
    → offset + w ≡ next
    → drop next p ≡ rest
drop-to_field p rest w v offset next h e = rw e at (drop-to_be p rest w v offset h)
