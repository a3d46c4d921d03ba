-- ===== src/Ring/Consistency.antt =====
-- What makes the hashing consistent: which names `Add` and `Remove` move.
use newtbig.Prelude.{
  ℕ, ◌≡◌, true, false, none, some, arith, nat_eq, bytes_eq, Bytes, lookup, bytes_beq_iff,
  Bool-cases, inl, inr, ◌⊎◌, ok, ◌≢◌,
}
use newtbig.Ring.Interface.{SortedKeys}
use newtbig.Ring.{HashRing, hash_key, get, has_member, add, remove}
use newtbig.Ring.Points.{is_point, lookup-add, add_rep, add_members, lookup-remove, remove_members}
use newtbig.Ring.Invariant.{IsRing, add-IsRing, remove-IsRing}
use newtbig.Ring.Lookup.{IsId, IsSuccessor, get-of_IsSuccessor, IsSuccessor-of_get, get-member}

module _ {S : SortedKeys} (hr : HashRing S) (v : IsRing hr) (elt : Bytes) where
  -- The ids of the old ring stay ids.
  IsId-add : (j : ℕ) → IsId hr.ring_map j → IsId (add hr elt).0.ring_map j
  IsId-add j i = rw lookup-add (ground arith)

  -- An id of the new ring that is no replica id of `elt` is one of the old ring.
  IsId-of_add :
      (j : ℕ) → is_point hr.rep elt j ≡ false → IsId (add hr elt).0.ring_map j → IsId hr.ring_map j
  IsId-of_add j p i = ground (arith, lookup-add hr elt j)

  IsSuccessor-of_add :
      (key k : ℕ)
      → is_point hr.rep elt k ≡ false
      → IsSuccessor (add hr elt).0.ring_map key k
      → IsSuccessor hr.ring_map key k
  IsSuccessor-of_add key k p (i, inl (above, least)) =
      (IsId-of_add k p i, inl (above, λ j h b. least j (IsId-add j h) b))
  IsSuccessor-of_add key k p (i, inr (below, least)) =
      (IsId-of_add k p i, inr (λ j h. below j (IsId-add j h), λ j h. least j (IsId-add j h)))

  -- On a well-formed ring, Add moves names to the added member only: a name that is served before
  -- and after is served by the added member or by the same one as before.
  pub add_moves_to_new :
      (name old new : Bytes)
      → get hr name ≡ ok old
      → get (add hr elt).0 name ≡ ok new
      → (new ≡ elt) ⊎ (new ≡ old)
  add_moves_to_new name old new before after =
      let (k, s, own) = IsSuccessor-of_get (add hr elt).0 (add-IsRing hr elt v) name new after in
      elim (Bool-cases (is_point hr.rep elt k)) [
        | inl p ↦ inl (ground (arith, lookup-add hr elt k))
        | inr p ↦ inr (
            ground (
              arith,
              get-of_IsSuccessor hr v name new k (IsSuccessor-of_add (hash_key name) k p s)
                  (ground (arith, lookup-add hr elt k)),
            ))
      ]

  IsId-of_remove : (j : ℕ) → IsId (remove hr elt).ring_map j → IsId hr.ring_map j
  IsId-of_remove j i = ground (arith, lookup-remove hr elt j)

  IsSuccessor-remove :
      (key k : ℕ)
      → is_point hr.rep elt k ≡ false
      → IsSuccessor hr.ring_map key k
      → IsSuccessor (remove hr elt).ring_map key k
  IsSuccessor-remove key k p (i, inl (above, least)) =
      (rw lookup-remove (rw p i), inl (above, λ j h b. least j (IsId-of_remove j h) b))
  IsSuccessor-remove key k p (i, inr (below, least)) = (
    rw lookup-remove (rw p i),
    inr (λ j h. below j (IsId-of_remove j h), λ j h. least j (IsId-of_remove j h)),
  )

  -- No replica id of `elt` is held by another member.
  abbrev pub NoCollision : Type 0
  NoCollision =
      (j : ℕ) (m : Bytes) → is_point hr.rep elt j ≡ true → lookup j hr.ring_map ≡ some m → m ≡ elt

  -- On a well-formed ring where no other member holds a replica id of the removed one, Remove
  -- leaves every name of another member with that member.
  pub remove_keeps_others :
      NoCollision
      → (name other : Bytes) → other ≢ elt
      → get hr name ≡ ok other
      → get (remove hr elt) name ≡ ok other
  remove_keeps_others free name other ne g =
      let (k, s, own) = IsSuccessor-of_get hr v name other g in
      elim (Bool-cases (is_point hr.rep elt k)) [
        | inl p ↦ absurd (ne (free k other p own))
        | inr p ↦
            get-of_IsSuccessor (remove hr elt) (remove-IsRing hr elt v) name other k
              (IsSuccessor-remove (hash_key name) k p s) (rw lookup-remove (rw p own))
      ]

  -- After Remove on a well-formed ring, the removed member is no member and serves no name.
  pub remove_serves_none :
      (name : Bytes)
      → (has_member (remove hr elt) elt ≡ false) × (get (remove hr elt) name ≢ ok elt)
  remove_serves_none name =
      (gone, λ g. cc (gone, get-member (remove hr elt) (remove-IsRing hr elt v) name elt g))
    where
      gone : has_member (remove hr elt) elt ≡ false
      gone = unfold has_member in rw remove_members (ground (arith, bytes_beq_iff elt elt))

  -- On a well-formed ring where none of a member's replica ids stands and which does not have it as
  -- a member, adding it and removing it again changes neither the owner of any point nor who is a
  -- member.
  pub remove-add :
      ((j : ℕ) → is_point hr.rep elt j ≡ true → lookup j hr.ring_map ≡ none)
      → has_member hr elt ≡ false
      → ((j : ℕ) → lookup j (remove (add hr elt).0 elt).ring_map ≡ lookup j hr.ring_map)
        × ((m : Bytes) → has_member (remove (add hr elt).0 elt) m ≡ has_member hr m)
  unfolding has_member
  remove-add fresh out = (
    λ j. rw lookup-remove (ground (arith, lookup-add hr elt j, add_rep hr elt, fresh j)),
    λ m. rw remove_members (ground (arith, add_members hr elt m, bytes_beq_iff elt m)),
  )
