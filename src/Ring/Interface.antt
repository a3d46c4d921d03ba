-- ===== src/Ring/Interface.antt =====
-- The ordered map that keeps the ring's keys (dispatcher/hash/maps) as an interface: what the hash
-- ring calls of it, with its documented behaviour. All of the ring's values in it are `true`.
use newtbig.Prelude.{
  ℕ, ◌≤◌, ◌<◌, ◌≡◌, Bool, true, false, Option, none, some, ◌==◌, nat_eq, if◌then◌else◌,
}

pub record SortedKeys : Type 1 where
  pub Keys : Type 0
  -- NewWithUInt32Comparator, Put(k, true), Remove(k), Ceiling(k), and Iterator().First() with Key().
  pub new : Keys
  pub put : ℕ → Keys → Keys
  pub remove : ℕ → Keys → Keys
  pub ceiling : ℕ → Keys → Option ℕ
  pub first : Keys → Option ℕ
  -- Whether Get(k) finds the key.
  pub has : ℕ → Keys → Bool
  pub has-new : (j : ℕ) → has j new ≡ false
  pub has-put : (k j : ℕ) (s : Keys) → has j (put k s) ≡ (if k == j then true else has j s)
  pub has-remove : (k j : ℕ) (s : Keys) → has j (remove k s) ≡ (if k == j then false else has j s)
  -- Ceiling finds the least key that is not below its argument.
  pub ceiling_found : (k c : ℕ) (s : Keys) → ceiling k s ≡ some c → (has c s ≡ true) × (k ≤ c)
  pub ceiling_least : (k c j : ℕ) (s : Keys) → ceiling k s ≡ some c → has j s ≡ true → k ≤ j → c ≤ j
  pub ceiling_none : (k j : ℕ) (s : Keys) → ceiling k s ≡ none → has j s ≡ true → j < k
  -- First finds the least key.
  pub first_found : (c : ℕ) (s : Keys) → first s ≡ some c → has c s ≡ true
  pub first_least : (c j : ℕ) (s : Keys) → first s ≡ some c → has j s ≡ true → c ≤ j
  pub first_none : (j : ℕ) (s : Keys) → first s ≡ none → has j s ≡ false
