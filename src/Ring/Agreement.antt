-- ===== src/Ring/Agreement.antt =====
-- What `Get` says after a history is a matter of the members alone: every process that watches the
-- same servers agrees on it.
use newtbig.Prelude.{
  ℕ, ◌≤◌, ◌<◌, ◌≡◌, refl, sym, arith, true, List, some, nat_eq, bytes_eq, Bytes, lookup, inl, inr,
  ◌⊎◌, ◌↔◌, ok, subst, length_pos,
}
use newtbig.Ring.Interface.{SortedKeys}
use newtbig.Ring.{HashRing, new_hash_ring, hash_key, get}
use newtbig.Ring.Points.{is_point}
use newtbig.Ring.Lookup.{
  some_of_IsId, IsId, IsNext, get-IsSuccessor, get-of_IsSuccessor, IsSuccessor-of_get,
}
use newtbig.Ring.Histories.{
  Change, replay, Members, joined, nobody, Stands, Apart, Within, Holds, replay-Holds,
  new_hash_ring-Holds,
}

-- `k` is the first of the members' replica ids at or after `key`, or the least where none is.
abbrev pub IsFirst : ℕ → Members → ℕ → ℕ → Type 0
IsFirst rep p key k =
    ((key ≤ k) × ((m : Bytes) (j : ℕ) → Stands rep p m j → key ≤ j → k ≤ j))
    ⊎ (((m : Bytes) (j : ℕ) → Stands rep p m j → j < key)
        × ((m : Bytes) (j : ℕ) → Stands rep p m j → k ≤ j))

-- The member that serves a name: the one whose replica id comes first from the name's hash on.
abbrev pub Serves : ℕ → Members → Bytes → Bytes → Type 0
Serves rep p name elt = (k : ℕ) × Stands rep p elt k × IsFirst rep p (hash_key name) k

module _ (among p : Members) (rep : ℕ) (apart : Apart rep among)
    (within : (m : Bytes) → p m ≡ true → among m ≡ true) where
  IsFirst-unique :
      (key k l : ℕ) (m n : Bytes)
      → Stands rep p m k
      → Stands rep p n l
      → IsFirst rep p key k
      → IsFirst rep p key l
      → k ≡ l
  IsFirst-unique key k l m n s t (inl (a, b)) (inl (c, d)) = omega (arith, b n l t c, d m k s a)
  IsFirst-unique key k l m n s t (inl (a, b)) (inr (c, d)) = absurd (omega (arith, c m k s, a))
  IsFirst-unique key k l m n s t (inr (a, b)) (inl (c, d)) = absurd (omega (arith, a n l t, c))
  IsFirst-unique key k l m n s t (inr (a, b)) (inr (c, d)) = omega (arith, b n l t, d m k s)

  -- One member serves a name at most.
  pub Serves-unique :
      (name elt other : Bytes) → Serves rep p name elt → Serves rep p name other → elt ≡ other
  Serves-unique name elt other (k, s, f) (l, t, g) =
      let same = IsFirst-unique (hash_key name) k l elt other s t f g in
      apart k elt other (within elt s.0, s.1)
        (within other t.0, subst (λ j. is_point rep other j ≡ true) (sym same) t.1)

module _ {S : SortedKeys} (among p : Members) (rep : ℕ) (hr : HashRing S)
    (h : Holds among p rep hr) where
  Stands-of_lookup : (m : Bytes) (j : ℕ) → lookup j hr.ring_map ≡ some m → Stands rep p m j
  Stands-of_lookup m j own = (
    cc (sym (h.listed m), h.ring.member j m own),
    subst (λ r. is_point r m j ≡ true) h.replicas (h.ring.owned j m own),
  )

  IsId-of_Stands : (m : Bytes) (j : ℕ) → Stands rep p m j → IsId hr.ring_map j
  IsId-of_Stands m j st = rw (h.stands m j st) refl

  pub get_iff_Serves : (name elt : Bytes) → (get hr name ≡ ok elt) ↔ Serves rep p name elt
  get_iff_Serves name elt = (first_of_get, get_of_first)
    where
      first_of_get : get hr name ≡ ok elt → Serves rep p name elt
      first_of_get g =
          let (k, s, own) = IsSuccessor-of_get hr h.ring name elt g in
          (k, Stands-of_lookup elt k own, first k s.1)
        where
          first : (k : ℕ) → IsNext hr.ring_map (hash_key name) k → IsFirst rep p (hash_key name) k
          first k (inl (above, least)) = inl (above, λ m j st. least j (IsId-of_Stands m j st))
          first k (inr (below, least)) =
              inr (
                λ m j st. below j (IsId-of_Stands m j st),
                λ m j st. least j (IsId-of_Stands m j st),
              )

      get_of_first : Serves rep p name elt → get hr name ≡ ok elt
      get_of_first (k, st, f) =
          get-of_IsSuccessor hr h.ring name elt k (IsId-of_Stands elt k st, successor f)
            (h.stands elt k st)
        where
          owner : (j : ℕ) → IsId hr.ring_map j → (m : Bytes) × Stands rep p m j
          owner j i = let (m, own) = some_of_IsId hr.ring_map j i in (m, Stands-of_lookup m j own)

          successor : IsFirst rep p (hash_key name) k → IsNext hr.ring_map (hash_key name) k
          successor (inl (above, least)) =
              inl (above, λ j i b. let (m, s) = owner j i in least m j s b)
          successor (inr (below, least)) = inr (
            λ j i. let (m, s) = owner j i in below m j s,
            λ j i. let (m, s) = owner j i in least m j s,
          )

  -- Where a member has a replica id, each name is served.
  pub Serves-of_Stands :
      (m : Bytes) (j : ℕ)
      → Stands rep p m j
      → (name : Bytes) → (elt : Bytes) × Serves rep p name elt
  Serves-of_Stands m j st name =
      let (k, elt, s, own, g) =
        get-IsSuccessor hr h.ring name (length_pos j hr.ring_map (IsId-of_Stands m j st)) in
      (elt, (get_iff_Serves name elt).0 g)

module _ (among : Members) (rep len : ℕ) (apart : Apart rep among) where
  -- After any additions and removals on a new ring, of names in a set of names that share no
  -- replica id, Get returns a name exactly when it is among the names added and not removed since,
  -- and has the first replica id from the hash on, going round, among all of these.
  pub replay_refines :
      (S : SortedKeys) (cs : List Change)
      → Within among cs
      → (name elt : Bytes)
      → (get (replay (new_hash_ring S rep len) cs) name ≡ ok elt)
        ↔ Serves rep (joined nobody cs) name elt
  replay_refines S cs w =
      get_iff_Serves among (joined nobody cs) rep (replay (new_hash_ring S rep len) cs) (
        replay-Holds among rep apart cs nobody (new_hash_ring S rep len) w
          (new_hash_ring-Holds among rep apart len))
