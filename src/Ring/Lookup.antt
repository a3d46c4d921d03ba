-- ===== src/Ring/Lookup.antt =====
-- What `Get` promises: the owner of the first point at or after the name's hash, going round.
use newtbig.Prelude.{
  ℕ, ◌≤◌, ◌<◌, ◌≡◌, sym, ◌∙◌, true, [], ◌∷◌, some, arith, nat_eq, bytes_eq, Bytes, Assoc, lookup,
  is_some, length, length_pos, Option-cases, inl, inr, ◌⊎◌, ok,
}
use newtbig.Ring.Interface.{SortedKeys}
use newtbig.Ring.{HashRing, hash_key, owner_at, get, has_member}
use newtbig.Ring.Invariant.{IsRing}

-- The ids that stand in a ring map.
abbrev pub IsId : Assoc ℕ Bytes → ℕ → Type 0
IsId m j = is_some (lookup j m) ≡ true

-- `k` is the first id at or after `key`, or the least one where no id is.
abbrev pub IsNext : Assoc ℕ Bytes → ℕ → ℕ → Type 0
IsNext m key k =
    ((key ≤ k) × ((j : ℕ) → IsId m j → key ≤ j → k ≤ j))
    ⊎ (((j : ℕ) → IsId m j → j < key) × ((j : ℕ) → IsId m j → k ≤ j))

abbrev pub IsSuccessor : Assoc ℕ Bytes → ℕ → ℕ → Type 0
IsSuccessor m key k = IsId m k × IsNext m key k

-- There is one successor at most.
pub IsSuccessor-unique :
    (m : Assoc ℕ Bytes) (key k l : ℕ) → IsSuccessor m key k → IsSuccessor m key l → k ≡ l
IsSuccessor-unique m key k l (hk, inl (a, b)) (hl, inl (c, d)) = omega (arith, b l hl c, d k hk a)
IsSuccessor-unique m key k l (hk, inl (a, b)) (hl, inr (c, d)) = absurd (omega (arith, c k hk))
IsSuccessor-unique m key k l (hk, inr (a, b)) (hl, inl (c, d)) = absurd (omega (arith, a l hl))
IsSuccessor-unique m key k l (hk, inr (a, b)) (hl, inr (c, d)) = omega (arith, b l hl, d k hk)

pub some_of_IsId : (m : Assoc ℕ Bytes) (k : ℕ) → IsId m k → (elt : Bytes) × (lookup k m ≡ some elt)
some_of_IsId m k h = elim (Option-cases (lookup k m)) [
  | inl e ↦ absurd (ground (arith, e))
  | inr (elt, e) ↦ (elt, e)
]

some_entry : (m : Assoc ℕ Bytes) → 0 < length m → (k : ℕ) × IsId m k
unfolding lookup
some_entry [] h = absurd (omega arith)
some_entry ((k, v) ∷ m) h = (k, ground arith)

length_pos_of_get :
    {S : SortedKeys} (hr : HashRing S) (name elt : Bytes)
    → get hr name ≡ ok elt
    → 0 < length hr.ring_map
unfolding get
length_pos_of_get hr name elt g = ground arith

module _ {S : SortedKeys} (hr : HashRing S) (v : IsRing hr) where
  IsId-of_has : (j : ℕ) → S.has j hr.sorted_keys ≡ true → IsId hr.ring_map j
  IsId-of_has j h = sym (v.agree j) ∙ h

  has-of_IsId : (j : ℕ) → IsId hr.ring_map j → S.has j hr.sorted_keys ≡ true
  has-of_IsId j h = v.agree j ∙ h

  -- The search in the sorted keys ends at the successor, or in an empty ring.
  owner_at_cases :
      (key : ℕ)
      → ((k : ℕ) × (elt : Bytes) × IsSuccessor hr.ring_map key k
          × (lookup k hr.ring_map ≡ some elt)
          × (owner_at hr key ≡ ok elt))
        ⊎ ((j : ℕ) → ¬ IsId hr.ring_map j)
  unfolding owner_at
  owner_at_cases key = elim (Option-cases (S.ceiling key hr.sorted_keys)) [
    | inr (k, e) ↦
        let (found, above) = S.ceiling_found key k hr.sorted_keys e in
        let (elt, own) = some_of_IsId hr.ring_map k (IsId-of_has k found) in
        inl (
          k,
          elt,
          (
            IsId-of_has k found,
            inl (above, λ j i b. S.ceiling_least key k j hr.sorted_keys e (has-of_IsId j i) b),
          ),
          own,
          rw (e, owner_at) (rw own),
        )
    | inl e ↦ elim (Option-cases (S.first hr.sorted_keys)) [
      | inr (k, f) ↦
          let found = S.first_found k hr.sorted_keys f in
          let (elt, own) = some_of_IsId hr.ring_map k (IsId-of_has k found) in
          inl (
            k,
            elt,
            (
              IsId-of_has k found,
              inr (
                λ j i. S.ceiling_none key j hr.sorted_keys e (has-of_IsId j i),
                λ j i. S.first_least k j hr.sorted_keys f (has-of_IsId j i),
              ),
            ),
            own,
            rw (e, owner_at) (rw f (rw own)),
          )
      | inl f ↦ inr (λ j i. cc (S.first_none j hr.sorted_keys f, has-of_IsId j i))
    ]
  ]

  -- On a well-formed ring with at least one point, Get returns the owner of the successor of the
  -- name's hash: it neither fails nor returns the empty default.
  pub get-IsSuccessor :
      (name : Bytes)
      → 0 < length hr.ring_map
      → (k : ℕ) × (elt : Bytes) × IsSuccessor hr.ring_map (hash_key name) k
        × (lookup k hr.ring_map ≡ some elt)
        × (get hr name ≡ ok elt)
  unfolding get
  get-IsSuccessor name h = elim (owner_at_cases (hash_key name)) [
    | inl (k, elt, s, own, e) ↦ (k, elt, s, own, ground (arith, e))
    | inr empty ↦ let (k, i) = some_entry hr.ring_map h in absurd (empty k i)
  ]

  -- Whoever owns the successor of the name's hash is what Get returns.
  pub get-of_IsSuccessor :
      (name elt : Bytes) (k : ℕ)
      → IsSuccessor hr.ring_map (hash_key name) k
      → lookup k hr.ring_map ≡ some elt
      → get hr name ≡ ok elt
  get-of_IsSuccessor name elt k s own =
      let (l, other, t, own', e) = get-IsSuccessor name (length_pos k hr.ring_map s.0) in
      cc (e, own', IsSuccessor-unique hr.ring_map (hash_key name) l k t s)

  -- A name is served exactly by the owner of the successor of its hash.
  pub IsSuccessor-of_get :
      (name elt : Bytes)
      → get hr name ≡ ok elt
      → (k : ℕ) × IsSuccessor hr.ring_map (hash_key name) k × (lookup k hr.ring_map ≡ some elt)
  IsSuccessor-of_get name elt g =
      let (l, other, t, own, e) = get-IsSuccessor name (length_pos_of_get hr name elt g) in
      (l, t, cc (own, e, g))

  -- The owner that Get returns is a member.
  pub get-member : (name elt : Bytes) → get hr name ≡ ok elt → has_member hr elt ≡ true
  get-member name elt g = let (k, s, own) = IsSuccessor-of_get name elt g in v.member k elt own
