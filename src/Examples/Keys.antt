-- ===== src/Examples/Keys.antt =====
-- An ordered map of keys as a list, an instance of the interface of Ring.Interface: the tests run
-- the ring with it.
use newtbig.Prelude.{
  ℕ, ◌≤◌, ◌<◌, ◌≡◌, refl, Bool, true, false, List, [], ◌∷◌, Option, none, some, arith, leb, ◌==◌,
  nat_eq, ==_iff, if◌then◌else◌, Option-cases, Bool-cases, inl, inr,
}
use newtbig.Ring.Interface.{SortedKeys}

abbrev pub smaller : ℕ → Option ℕ → ℕ
smaller j none = j
smaller j (some m) = if leb j m then j else m

-- The least key from `k` on.
abbrev pub least_from : ℕ → List ℕ → Option ℕ
least_from k [] = none
least_from k (j ∷ s) = let rest = least_from k s in if leb k j then some (smaller j rest) else rest

abbrev pub has : ℕ → List ℕ → Bool
has j [] = false
has j (k ∷ s) = if k == j then true else has j s

abbrev pub remove : ℕ → List ℕ → List ℕ
remove k [] = []
remove k (j ∷ s) = let rest = remove k s in if k == j then rest else j ∷ rest

pub has-remove : (k j : ℕ) (s : List ℕ) → has j (remove k s) ≡ (if k == j then false else has j s)
has-remove k j [] = ground arith
has-remove k j (i ∷ s) = ground (arith, ==_iff k i, ==_iff k j, ==_iff i j, has-remove k j s)

pub found : (k c : ℕ) (s : List ℕ) → least_from k s ≡ some c → (has c s ≡ true) × (k ≤ c)
found k c [] h = cc
found k c (j ∷ s) h = elim (Option-cases (least_from k s)) [
  | inl e ↦ ground (arith, ==_iff j c)
  | inr (m, e) ↦ ground (arith, ==_iff j c, found k m s e)
]

pub missing : (k j : ℕ) (s : List ℕ) → least_from k s ≡ none → has j s ≡ true → j < k
missing k j [] h i = cc
missing k j (l ∷ s) h i = ground (arith, ==_iff l j, missing k j s)

pub least : (k c j : ℕ) (s : List ℕ) → least_from k s ≡ some c → has j s ≡ true → k ≤ j → c ≤ j
least k c j [] h i b = cc
least k c j (l ∷ s) h i b = elim (Option-cases (least_from k s)) [
  | inl e ↦ ground (arith, ==_iff l j, missing k j s e)
  | inr (m, e) ↦ ground (arith, ==_iff l j, least k m j s e)
]

pub first_none : (j : ℕ) (s : List ℕ) → least_from 0 s ≡ none → has j s ≡ false
first_none j s h = elim (Bool-cases (has j s)) [
  | inl i ↦ absurd (omega (arith, missing 0 j s h i))
  | inr i ↦ i
]

abbrev pub list_keys : SortedKeys
list_keys = record {
  Keys = List ℕ;
  new = [];
  put = ◌∷◌;
  remove = remove;
  ceiling = least_from;
  first = least_from 0;
  has = has;
  has-new = λ j. refl;
  has-put = λ k j s. refl;
  has-remove = has-remove;
  ceiling_found = found;
  ceiling_least = least;
  ceiling_none = missing;
  first_found = λ c s h. (found 0 c s h).0;
  first_least = λ c j s h i. least 0 c j s h i (omega arith);
  first_none = first_none;
}
