-- ===== src/Prelude/GoMap.antt =====
-- Go's maps as association lists without repeated keys. The order of the entries stands for the
-- unspecified order of `range`.
use Prim.Native.Nat.{suc, ◌<◌}
use mathlib.Core.Path.{◌≡◌, refl}
use mathlib.Core.Bool.{Bool, true, false}
use mathlib.Core.Option.{Option, none, some}
use mathlib.Core.List.{List, [], ◌∷◌}
use native.Mathlib.Omega.{arith}
use newtbig.Prelude.Tests.{if◌then◌else◌, Comparable, ◌==◌, ==_iff}
use newtbig.Prelude.Lists.{length}

abbrev pub Assoc {ℓ κ} : Type ℓ → Type κ → Type (ℓ ⊔ κ)
Assoc K V = List (K × V)

abbrev pub is_some {ℓ} : {A : Type ℓ} → Option A → Bool
is_some none = false
is_some (some a) = true

abbrev pub keys {ℓ κ} : {K : Type ℓ} {V : Type κ} → Assoc K V → List K
keys [] = []
keys ((k, v) ∷ m) = k ∷ keys m

module _ {ℓ κ} {K : Type ℓ} {V : Type κ} ⦃e : Comparable K⦄ where
  unfoldable pub lookup : K → Assoc K V → Option V
  lookup k [] = none
  lookup k ((j, v) ∷ m) = if j == k then some v else lookup k m

  unfoldable pub insert : K → V → Assoc K V → Assoc K V
  insert key value [] = (key, value) ∷ []
  insert key value ((k, v) ∷ rest) =
      if k == key then (key, value) ∷ rest else (k, v) ∷ insert key value rest

  unfoldable pub erase : K → Assoc K V → Assoc K V
  erase k [] = []
  erase k ((j, v) ∷ m) = let rest = erase k m in if j == k then rest else (j, v) ∷ rest

  pub lookup-insert :
      (key at : K) (value : V) (m : Assoc K V)
      → lookup at (insert key value m) ≡ (if key == at then some value else lookup at m)
  unfolding lookup insert
  lookup-insert key at value [] = refl
  lookup-insert key at value ((k, v) ∷ rest) =
      ground (arith, ==_iff key at, ==_iff k key, ==_iff k at, lookup-insert key at value rest)

  pub lookup-erase :
      (k j : K) (m : Assoc K V) → lookup j (erase k m) ≡ (if k == j then none else lookup j m)
  unfolding lookup erase
  lookup-erase k j [] = ground arith
  lookup-erase k j ((i, w) ∷ m) =
      ground (arith, ==_iff k j, ==_iff i k, ==_iff i j, lookup-erase k j m)

  -- No key stands twice.
  abbrev pub IsUnique : Assoc K V → Type κ
  IsUnique [] = Unit
  IsUnique ((k, v) ∷ m) = (lookup k m ≡ none) × IsUnique m

  pub insert-IsUnique : (k : K) (v : V) (m : Assoc K V) → IsUnique m → IsUnique (insert k v m)
  unfolding lookup insert
  insert-IsUnique k v [] u = (refl, tt)
  insert-IsUnique k v ((j, w) ∷ m) u =
      ground (arith, ==_iff j k, ==_iff k j, lookup-insert k j v m, insert-IsUnique k v m u.1)

  pub erase-IsUnique : (k : K) (m : Assoc K V) → IsUnique m → IsUnique (erase k m)
  unfolding lookup erase
  erase-IsUnique k [] u = tt
  erase-IsUnique k ((j, w) ∷ m) u =
      ground (arith, ==_iff j k, ==_iff k j, lookup-erase k j m, erase-IsUnique k m u.1)

  pub erase_absent : (k : K) (m : Assoc K V) → lookup k m ≡ none → erase k m ≡ m
  unfolding lookup erase
  erase_absent k [] h = refl
  erase_absent k ((j, w) ∷ m) h = ground (arith, erase_absent k m)

  -- `len(m)` after a write.
  pub length-insert :
      (k : K) (v : V) (m : Assoc K V)
      → length (insert k v m) ≡ (if is_some (lookup k m) then length m else suc (length m))
  unfolding lookup insert
  length-insert k v [] = refl
  length-insert k v ((j, w) ∷ m) = ground (arith, length-insert k v m)

  -- A map with an entry is not empty.
  pub length_pos : (k : K) (m : Assoc K V) → is_some (lookup k m) ≡ true → 0 < length m
  unfolding lookup
  length_pos k [] h = cc
  length_pos k (e ∷ m) h = omega arith

  -- `len(m)` after a `delete`.
  pub length-erase :
      (k : K) (m : Assoc K V)
      → IsUnique m
      → length m ≡ (if is_some (lookup k m) then suc (length (erase k m)) else length (erase k m))
  unfolding lookup erase
  length-erase k [] u = refl
  length-erase k ((j, w) ∷ m) u = ground (arith, ==_iff j k, length-erase k m u.1, erase_absent k m)

  pub erase_head : (k : K) (v : V) (m : Assoc K V) → lookup k m ≡ none → erase k ((k, v) ∷ m) ≡ m
  unfolding erase
  erase_head k v m h = ground (arith, ==_iff k k, erase_absent k m h)

  pub lookup_head : (k : K) (v : V) (m : Assoc K V) → lookup k ((k, v) ∷ m) ≡ some v
  unfolding lookup
  lookup_head k v m = ground (arith, ==_iff k k)
