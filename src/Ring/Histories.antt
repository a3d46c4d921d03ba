-- ===== src/Ring/Histories.antt =====
-- Histories of `Add` and `Remove`, and the set of members that they leave: the ring holds the
-- points of these members and no others.
use newtbig.Prelude.{
  ℕ, ◌≡◌, refl, Bool, true, false, List, [], ◌∷◌, some, arith, ◌==◌, nat_eq, bytes_eq,
  bytes_beq_iff, if◌then◌else◌, Bytes, lookup, All,
}
use newtbig.Ring.Interface.{SortedKeys}
use newtbig.Ring.{HashRing, new_hash_ring, has_member, add, remove}
use newtbig.Ring.Points.{
  is_point, lookup-add, add_rep, add_members, lookup-remove, remove_rep, remove_members,
}
use newtbig.Ring.Invariant.{IsRing, new_hash_ring-IsRing, add-IsRing, remove-IsRing}

pub data Change : Type 0 where
  join leave : Bytes → Change

abbrev pub subject : Change → Bytes
subject (join elt) = elt
subject (leave elt) = elt

unfoldable pub change : {S : SortedKeys} → HashRing S → Change → HashRing S
change hr (join elt) = (add hr elt).0
change hr (leave elt) = remove hr elt

unfoldable pub replay : {S : SortedKeys} → HashRing S → List Change → HashRing S
replay hr [] = hr
replay hr (c ∷ cs) = replay (change hr c) cs

-- A set of members, and what a change makes of it.
abbrev pub Members : Type 0
Members = Bytes → Bool

unfoldable pub alter : Members → Change → Members
alter p (join elt) m = if elt == m then true else p m
alter p (leave elt) m = if elt == m then false else p m

unfoldable pub joined : Members → List Change → Members
joined p [] = p
joined p (c ∷ cs) = joined (alter p c) cs

abbrev pub nobody : Members
nobody m = false

-- `j` is a replica id of one of the members.
abbrev pub Stands : ℕ → Members → Bytes → ℕ → Type 0
Stands rep p m j = (p m ≡ true) × (is_point rep m j ≡ true)

-- Different names share no replica id.
abbrev pub Apart : ℕ → Members → Type 0
Apart rep among = (j : ℕ) (m n : Bytes) → Stands rep among m j → Stands rep among n j → m ≡ n

abbrev pub Within : Members → List Change → Type 0
Within among cs = All (λ c. among (subject c) ≡ true) cs

-- A ring that holds the points of the members, and no others.
pub record Holds {S : SortedKeys} (among p : Members) (rep : ℕ) (hr : HashRing S) : Type 0 where
  pub ring : IsRing hr
  pub replicas : hr.rep ≡ rep
  pub listed : (m : Bytes) → has_member hr m ≡ p m
  pub stands : (m : Bytes) (j : ℕ) → Stands rep p m j → lookup j hr.ring_map ≡ some m
  pub within : (m : Bytes) → p m ≡ true → among m ≡ true

module _ {S : SortedKeys} (among : Members) (rep : ℕ) (apart : Apart rep among) where
  pub change-Holds :
      (c : Change) (p : Members) (hr : HashRing S)
      → among (subject c) ≡ true
      → Holds among p rep hr
      → Holds among (alter p c) rep (change hr c)
  unfolding change alter has_member
  change-Holds (join elt) p hr i h = record {
    ring = add-IsRing hr elt h.ring;
    replicas = cc (add_rep hr elt, h.replicas);
    listed = λ m. rw (add_members hr elt m) (ground (arith, h.listed m));
    stands = λ m j st. ground (
      arith,
      st,
      h.replicas,
      lookup-add hr elt j,
      bytes_beq_iff elt m,
      h.within m,
      h.stands m j,
      apart j m elt,
    );
    within = λ m e. ground (arith, h.within m, bytes_beq_iff elt m);
  }
  change-Holds (leave elt) p hr i h = record {
    ring = remove-IsRing hr elt h.ring;
    replicas = cc (remove_rep hr elt, h.replicas);
    listed = λ m. rw (remove_members hr elt m) (ground (arith, h.listed m));
    stands = λ m j st. ground (
      arith,
      st,
      h.replicas,
      lookup-remove hr elt j,
      bytes_beq_iff elt m,
      h.within m,
      h.stands m j,
      apart j m elt,
    );
    within = λ m e. ground (arith, h.within m, bytes_beq_iff elt m);
  }

  pub replay-Holds :
      (cs : List Change) (p : Members) (hr : HashRing S)
      → Within among cs
      → Holds among p rep hr
      → Holds among (joined p cs) rep (replay hr cs)
  unfolding replay joined
  replay-Holds [] p hr w h = h
  replay-Holds (c ∷ cs) p hr w h =
      replay-Holds cs (alter p c) (change hr c) w.1 (change-Holds c p hr w.0 h)

  pub new_hash_ring-Holds : (len : ℕ) → Holds among nobody rep (new_hash_ring S rep len)
  unfolding new_hash_ring has_member lookup
  new_hash_ring-Holds len = record {
    ring = new_hash_ring-IsRing S rep len;
    replicas = refl;
    listed = λ m. refl;
    stands = λ m j st. ground arith;
    within = λ m e. ground arith;
  }
