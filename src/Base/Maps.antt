-- ===== src/Base/Maps.antt =====
-- Association lists for the source's hash maps, and lists without repetition for its hash sets.
use Prim.Native.Nat.{ℕ}
use mathlib.Core.Bool.{Bool, false, ◌||◌}
use mathlib.Core.List.{List, [], ◌∷◌}
use mathlib.Core.Logic.{◌≢◌, inl, inr}
use mathlib.Core.Option.{Option, none, some}
use mathlib.Core.Path.{◌≡◌, refl}
use native.Mathlib.Omega.{arith}
use sn_netplay_serv.Base.Bytes.{bytes_eq}
use sn_netplay_serv.Base.Tests.{◌==◌, if◌then◌else◌, ==-refl, ==_iff, Bool-cases}

abbrev pub Map : Type 0 → Type 0
Map V = List (ℕ × V)

module _ {V : Type 0} where
  -- `map.get(&wanted)`
  unfoldable pub lookup : ℕ → Map V → Option V
  lookup wanted ((found, value) ∷ more) = if found == wanted then some value else lookup wanted more
  lookup wanted [] = none

  -- `map.insert(new, value)`
  unfoldable pub insert : ℕ → V → Map V → Map V
  insert new value ((found, old) ∷ more) =
      if found == new then (new, value) ∷ more else (found, old) ∷ insert new value more
  insert new value [] = (new, value) ∷ []

  -- `map.remove(&gone)`, the map that is left
  unfoldable pub remove : ℕ → Map V → Map V
  remove gone ((found, value) ∷ more) =
      if found == gone then remove gone more else (found, value) ∷ remove gone more
  remove gone [] = []

  -- `map.get(&k).copied().unwrap_or(d)`
  abbrev pub lookup_or : ℕ → Map V → V → V
  lookup_or k m d = elim (lookup k m) [ none ↦ d | some v ↦ v ]

  pub lookup-insert :
      (new wanted : ℕ) (value : V) (m : Map V)
      → lookup wanted (insert new value m) ≡ (if new == wanted then some value else lookup wanted m)
  unfolding lookup insert
  lookup-insert new wanted value ((found, old) ∷ more) =
      ground (arith, lookup-insert new wanted value more)
  lookup-insert new wanted value [] = refl

  pub lookup-insert_self : (k : ℕ) (v : V) (m : Map V) → lookup k (insert k v m) ≡ some v
  lookup-insert_self k v m = rw (lookup-insert k k v m, ==-refl k) refl

  pub lookup-insert_ne :
      (k j : ℕ) (v : V) (m : Map V) → k ≢ j → lookup j (insert k v m) ≡ lookup j m
  lookup-insert_ne k j v m h = ground (arith, lookup-insert k j v m)

  pub lookup_or-insert_self : (k : ℕ) (v d : V) (m : Map V) → lookup_or k (insert k v m) d ≡ v
  lookup_or-insert_self k v d m = ground (arith, lookup-insert_self k v m)

  pub lookup_or-insert_ne :
      (k j : ℕ) (v d : V) (m : Map V) → k ≢ j → lookup_or j (insert k v m) d ≡ lookup_or j m d
  lookup_or-insert_ne k j v d m h = ground (arith, lookup-insert_ne k j v m h)

  pub lookup-remove :
      (k j : ℕ) (m : Map V) → lookup j (remove k m) ≡ (if k == j then none else lookup j m)
  unfolding lookup remove
  lookup-remove k j [] = ground arith
  lookup-remove k j ((i, w) ∷ m) = ground (arith, lookup-remove k j m)

-- `set.contains(&k)` and `set.insert(k)`, on numbers.
unfoldable pub contains : ℕ → List ℕ → Bool
contains k [] = false
contains k (j ∷ s) = (j == k) || contains k s

unfoldable pub set_insert : ℕ → List ℕ → List ℕ
unfolding contains
set_insert k s = if contains k s then s else k ∷ s

pub contains-set_insert :
    (k j : ℕ) (s : List ℕ) → contains j (set_insert k s) ≡ ((k == j) || contains j s)
unfolding set_insert contains
contains-set_insert k j s = elim (Bool-cases (k == j)) [
  | inr ne ↦ ground arith
  | inl same ↦ let e : k ≡ j = (==_iff k j).0 same in rw e (ground arith)
]

-- Texts are the bytes of their UTF-8 encoding.
abbrev pub Text : Type 0
Text = List ℕ

unfoldable pub contains_text : Text → List Text → Bool
contains_text k [] = false
contains_text k (j ∷ s) = bytes_eq j k || contains_text k s
