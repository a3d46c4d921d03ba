-- ===== src/Ring/Invariant.antt =====
-- The ring's well-formedness.
use newtbig.Prelude.{
  ℕ, ◌≡◌, true, some, arith, nat_eq, bytes_eq, Bytes, lookup, is_some, bytes_beq_iff,
}
use newtbig.Ring.Interface.{SortedKeys}
use newtbig.Ring.{HashRing, new_hash_ring, add, remove, has_member}
use newtbig.Ring.Points.{
  is_point, lookup-add, add_has, add_members, add_rep, lookup-remove, remove_has, remove_members,
  remove_rep,
}

module _ {S : SortedKeys} where
  pub record IsRing (hr : HashRing S) : Type 0 where
    -- The sorted keys are the ids of the ring map.
    pub agree : (j : ℕ) → S.has j hr.sorted_keys ≡ is_some (lookup j hr.ring_map)
    -- A point belongs to a member, and is one of that member's replica ids.
    pub owned :
        (j : ℕ) (elt : Bytes) → lookup j hr.ring_map ≡ some elt → is_point hr.rep elt j ≡ true
    pub member : (j : ℕ) (elt : Bytes) → lookup j hr.ring_map ≡ some elt → has_member hr elt ≡ true

-- A new ring is well formed.
pub new_hash_ring-IsRing : (S : SortedKeys) (rep len : ℕ) → IsRing (new_hash_ring S rep len)
unfolding new_hash_ring lookup
new_hash_ring-IsRing S rep len = record {
  agree = λ j. S.has-new j;
  owned = λ j elt h. cc;
  member = λ j elt h. cc;
}

module _ {S : SortedKeys} (hr : HashRing S) (elt : Bytes) (v : IsRing hr) where
  -- Add keeps a ring well formed, also where ids of two members collide.
  pub add-IsRing : IsRing (add hr elt).0
  unfolding has_member
  add-IsRing = record {
    agree = λ j. rw (add_has hr elt j, lookup-add hr elt j) (ground (arith, v.agree j));
    owned = λ j m h. rw (add_rep hr elt) (ground (arith, lookup-add hr elt j, v.owned j m));
    member = λ j m h.
        rw (add_members hr elt m)
          (ground (arith, lookup-add hr elt j, v.member j m, bytes_beq_iff elt m));
  }

  -- Remove keeps a ring well formed.
  pub remove-IsRing : IsRing (remove hr elt)
  unfolding has_member
  remove-IsRing = record {
    agree = λ j. rw (remove_has hr elt j, lookup-remove hr elt j) (ground (arith, v.agree j));
    owned = λ j m h. rw (remove_rep hr elt) (ground (arith, lookup-remove hr elt j, v.owned j m));
    member = λ j m h.
        rw (remove_members hr elt m)
          (ground (arith, lookup-remove hr elt j, v.member j m, v.owned j m, bytes_beq_iff elt m));
  }
