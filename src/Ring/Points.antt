-- ===== src/Ring/Points.antt =====
-- The points that `add` and `remove` write: the replica ids of one member, and the maps after the
-- loops, as one lookup law each.
use newtbig.Prelude.{
  ℕ, zero, suc, ◌+◌, ◌<◌, ◌≡◌, refl, sym, ◌∙◌, ap, Bool, true, false, List, [], ◌∷◌, ◌++◌, none,
  some, arith, ◌==◌, nat_eq, bytes_eq, if◌then◌else◌, Bytes, lookup, lookup-insert, lookup-erase,
  length,
}
use mathlib.Core.List.{append_assoc, append-nil}
use newtbig.Ring.Interface.{SortedKeys}
use newtbig.Ring.{HashRing, hash_key, elt_key, add_loop, remove_loop, add, remove}

-- The replica ids of a member, from index `i` on.
unfoldable pub points_from : ℕ → ℕ → Bytes → List ℕ
points_from zero i elt = []
points_from (suc n) i elt = hash_key (elt_key elt i) ∷ points_from n (i + 1) elt

unfoldable pub contains : ℕ → List ℕ → Bool
contains j [] = false
contains j (id ∷ ids) = if id == j then true else contains j ids

abbrev pub points : ℕ → Bytes → List ℕ
points rep elt = points_from rep 0 elt

-- Whether an id is a replica id of a member.
abbrev pub is_point : ℕ → Bytes → ℕ → Bool
is_point rep elt j = contains j (points rep elt)

-- Replica 0 is there as soon as there is a replica.
pub is_point_first :
    (rep : ℕ) (elt : Bytes) → 0 < rep → is_point rep elt (hash_key (elt_key elt 0)) ≡ true
unfolding points_from contains
is_point_first zero elt h = absurd (omega (arith, h))
is_point_first (suc rep) elt h = ground arith

pub length-points_from : (n i : ℕ) (elt : Bytes) → length (points_from n i elt) ≡ n
unfolding points_from
length-points_from zero i elt = refl
length-points_from (suc n) i elt = ap suc (length-points_from n (i + 1) elt)

module _ {S : SortedKeys} where
  -- What the loop of `add` leaves as it was.
  pub record SameFrame (a b : HashRing S) : Type 0 where
    pub same_members : a.member_map ≡ b.member_map
    pub same_rep : a.rep ≡ b.rep
    pub same_len : a.len ≡ b.len

  pub add_loop_frame :
      (n i : ℕ) (elt : Bytes) (hr : HashRing S) (rst : List ℕ)
      → SameFrame (add_loop n i elt hr rst).0 hr
  unfolding add_loop
  add_loop_frame zero i elt hr rst = record {
    same_members = refl;
    same_rep = refl;
    same_len = refl;
  }
  add_loop_frame (suc n) i elt hr rst =
      let f = add_loop_frame n (i + 1) elt _ _ in
      record { same_members = f.same_members; same_rep = f.same_rep; same_len = f.same_len }

  pub remove_loop_frame :
      (n i : ℕ) (elt : Bytes) (hr : HashRing S) → SameFrame (remove_loop n i elt hr) hr
  unfolding remove_loop
  remove_loop_frame zero i elt hr = record { same_members = refl; same_rep = refl; same_len = refl }
  remove_loop_frame (suc n) i elt hr =
      let f = remove_loop_frame n (i + 1) elt _ in
      record { same_members = f.same_members; same_rep = f.same_rep; same_len = f.same_len }

  pub add_loop_ids :
      (n i : ℕ) (elt : Bytes) (hr : HashRing S) (rst : List ℕ)
      → (add_loop n i elt hr rst).1 ≡ rst ++ points_from n i elt
  unfolding add_loop points_from
  add_loop_ids zero i elt hr rst = sym (append-nil rst)
  add_loop_ids (suc n) i elt hr rst =
      add_loop_ids n (i + 1) elt _ _ ∙ append_assoc rst (hash_key (elt_key elt i) ∷ []) _

  pub lookup-add_loop :
      (n i : ℕ) (elt : Bytes) (hr : HashRing S) (rst : List ℕ) (j : ℕ)
      → lookup j (add_loop n i elt hr rst).0.ring_map
        ≡ (if contains j (points_from n i elt) then some elt else lookup j hr.ring_map)
  unfolding add_loop points_from contains
  lookup-add_loop zero i elt hr rst j = refl
  lookup-add_loop (suc n) i elt hr rst j =
      lookup-add_loop n (i + 1) elt _ _ j
      ∙ ground (arith, lookup-insert (hash_key (elt_key elt i)) j elt hr.ring_map)

  pub add_loop_has :
      (n i : ℕ) (elt : Bytes) (hr : HashRing S) (rst : List ℕ) (j : ℕ)
      → S.has j (add_loop n i elt hr rst).0.sorted_keys
        ≡ (if contains j (points_from n i elt) then true else S.has j hr.sorted_keys)
  unfolding add_loop points_from contains
  add_loop_has zero i elt hr rst j = refl
  add_loop_has (suc n) i elt hr rst j =
      add_loop_has n (i + 1) elt _ _ j
      ∙ ground (arith, S.has-put (hash_key (elt_key elt i)) j hr.sorted_keys)

  pub lookup-remove_loop :
      (n i : ℕ) (elt : Bytes) (hr : HashRing S) (j : ℕ)
      → lookup j (remove_loop n i elt hr).ring_map
        ≡ (if contains j (points_from n i elt) then none else lookup j hr.ring_map)
  unfolding remove_loop points_from contains
  lookup-remove_loop zero i elt hr j = refl
  lookup-remove_loop (suc n) i elt hr j =
      lookup-remove_loop n (i + 1) elt _ j
      ∙ ground (arith, lookup-erase (hash_key (elt_key elt i)) j hr.ring_map)

  pub remove_loop_has :
      (n i : ℕ) (elt : Bytes) (hr : HashRing S) (j : ℕ)
      → S.has j (remove_loop n i elt hr).sorted_keys
        ≡ (if contains j (points_from n i elt) then false else S.has j hr.sorted_keys)
  unfolding remove_loop points_from contains
  remove_loop_has zero i elt hr j = refl
  remove_loop_has (suc n) i elt hr j =
      remove_loop_has n (i + 1) elt _ j
      ∙ ground (arith, S.has-remove (hash_key (elt_key elt i)) j hr.sorted_keys)

  -- The maps after a whole `add`.
  pub lookup-add :
      (hr : HashRing S) (elt : Bytes) (j : ℕ)
      → lookup j (add hr elt).0.ring_map
        ≡ (if is_point hr.rep elt j then some elt else lookup j hr.ring_map)
  unfolding add
  lookup-add hr elt j = lookup-add_loop hr.rep 0 elt hr [] j

  pub add_has :
      (hr : HashRing S) (elt : Bytes) (j : ℕ)
      → S.has j (add hr elt).0.sorted_keys
        ≡ (if is_point hr.rep elt j then true else S.has j hr.sorted_keys)
  unfolding add
  add_has hr elt j = add_loop_has hr.rep 0 elt hr [] j

  pub add_members :
      (hr : HashRing S) (elt m : Bytes)
      → lookup m (add hr elt).0.member_map
        ≡ (if elt == m then some true else lookup m hr.member_map)
  unfolding add
  add_members hr elt m =
      lookup-insert elt m true _
      ∙ ap (λ ms. if elt == m then some true else lookup m ms)
          (add_loop_frame hr.rep 0 elt hr []).same_members

  pub add_rep : (hr : HashRing S) (elt : Bytes) → (add hr elt).0.rep ≡ hr.rep
  unfolding add
  add_rep hr elt = (add_loop_frame hr.rep 0 elt hr []).same_rep

  -- The maps after a whole `remove`.
  pub lookup-remove :
      (hr : HashRing S) (elt : Bytes) (j : ℕ)
      → lookup j (remove hr elt).ring_map
        ≡ (if is_point hr.rep elt j then none else lookup j hr.ring_map)
  unfolding remove
  lookup-remove hr elt j = lookup-remove_loop hr.rep 0 elt hr j

  pub remove_has :
      (hr : HashRing S) (elt : Bytes) (j : ℕ)
      → S.has j (remove hr elt).sorted_keys
        ≡ (if is_point hr.rep elt j then false else S.has j hr.sorted_keys)
  unfolding remove
  remove_has hr elt j = remove_loop_has hr.rep 0 elt hr j

  pub remove_members :
      (hr : HashRing S) (elt m : Bytes)
      → lookup m (remove hr elt).member_map ≡ (if elt == m then none else lookup m hr.member_map)
  unfolding remove
  remove_members hr elt m =
      lookup-erase elt m _
      ∙ ap (λ ms. if elt == m then none else lookup m ms)
          (remove_loop_frame hr.rep 0 elt hr).same_members

  pub remove_rep : (hr : HashRing S) (elt : Bytes) → (remove hr elt).rep ≡ hr.rep
  unfolding remove
  remove_rep hr elt = (remove_loop_frame hr.rep 0 elt hr).same_rep
