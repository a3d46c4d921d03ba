-- ===== src/Examples/RingTests.antt =====
-- The ring with two servers of three points each.
use newtbig.Prelude.{
  ℕ, ◌≡◌, ◌≢◌, refl, sym, ◌∙◌, inl, inr, true, some, Bytes, codes, lookup, insert, length, ok, ◌⊎◌,
  ◌↔◌, ◌<◌, List, [], ◌∷◌, if◌then◌else◌, ◌==◌, arith, nat_eq, bytes_eq, bytes_beq, bytes_beq_iff,
}
use newtbig.Ring.{HashRing, hash_key, elt_key, new_hash_ring, add, add_loop, remove, get, owner_at}
use newtbig.Ring.Crc32.{checksum_ieee}
use newtbig.Strings.Decimal.{itoa}
use newtbig.Ring.Points.{is_point, contains, points_from}
use newtbig.Ring.Invariant.{IsRing, new_hash_ring-IsRing, add-IsRing}
use newtbig.Ring.Lookup.{IsSuccessor, get-IsSuccessor}
use newtbig.Ring.Consistency.{add_moves_to_new, remove_keeps_others, NoCollision}
use newtbig.Ring.Histories.{Change, join, Members, Apart, joined, nobody, replay}
use newtbig.Ring.Agreement.{Serves, replay_refines}
use newtbig.Examples.Keys.{list_keys}

abbrev empty_one : HashRing list_keys
empty_one = new_hash_ring list_keys 3 64

abbrev one_server : HashRing list_keys
one_server = (add empty_one (codes "a")).0

abbrev two_servers : HashRing list_keys
two_servers = (add one_server (codes "b")).0

one_server-IsRing : IsRing one_server
one_server-IsRing = add-IsRing empty_one (codes "a") (new_hash_ring-IsRing list_keys 3 64)

two_servers-IsRing : IsRing two_servers
two_servers-IsRing = add-IsRing one_server (codes "b") one_server-IsRing

points_stand : 0 < length two_servers.ring_map
unfolding add add_loop new_hash_ring insert elt_key hash_key itoa checksum_ieee
points_stand = omega arith

get-IsSuccessor_example :
    (k : ℕ) × (elt : Bytes) × IsSuccessor two_servers.ring_map (hash_key (codes "1")) k
    × (lookup k two_servers.ring_map ≡ some elt)
    × (get two_servers (codes "1") ≡ ok elt)
get-IsSuccessor_example = get-IsSuccessor two_servers two_servers-IsRing (codes "1") points_stand

served_before : get one_server (codes "2") ≡ ok (codes "a")
unfolding get owner_at add add_loop new_hash_ring insert elt_key hash_key lookup checksum_ieee itoa
served_before = refl

served_after : get two_servers (codes "2") ≡ ok (codes "b")
unfolding get owner_at add add_loop new_hash_ring insert elt_key hash_key lookup checksum_ieee itoa
served_after = refl

add_moves_to_new_example : (codes "b" ≡ codes "b") ⊎ (codes "b" ≡ codes "a")
add_moves_to_new_example =
    add_moves_to_new one_server one_server-IsRing (codes "b") (codes "2") (codes "a") (codes "b")
      served_before served_after

-- The points of the first server are not among those of the second.
apart : NoCollision two_servers two_servers-IsRing (codes "a")
unfolding add add_loop new_hash_ring insert lookup elt_key hash_key checksum_ieee itoa contains
    points_from
apart j m p h = ground arith

different : codes "b" ≢ codes "a"
different e = ground arith

remove_keeps_others_example : get (remove two_servers (codes "a")) (codes "2") ≡ ok (codes "b")
remove_keeps_others_example =
    remove_keeps_others two_servers two_servers-IsRing (codes "a") apart (codes "2") (codes "b")
      different served_after

abbrev pair : Members
pair m = if codes "a" == m then true else codes "b" == m

abbrev a_then_b : List Change
a_then_b = join (codes "a") ∷ join (codes "b") ∷ []

points_apart : (j : ℕ) → is_point 3 (codes "a") j ≡ true → ¬ (is_point 3 (codes "b") j ≡ true)
unfolding elt_key hash_key checksum_ieee itoa contains points_from
points_apart j a b = ground arith

pair-cases : (m : Bytes) → pair m ≡ true → (codes "a" ≡ m) ⊎ (codes "b" ≡ m)
pair-cases m h = ground (arith, bytes_beq_iff (codes "a") m, bytes_beq_iff (codes "b") m)

pair-Apart : Apart 3 pair
pair-Apart j m n s t = elim (pair-cases m s.0) [
  | inl e ↦ elim (pair-cases n t.0) [
    | inl f ↦ sym e ∙ f
    | inr f ↦ absurd (points_apart j (rw e s.1) (rw f t.1))
  ]
  | inr e ↦ elim (pair-cases n t.0) [
    | inl f ↦ absurd (points_apart j (rw f t.1) (rw e s.1))
    | inr f ↦ sym e ∙ f
  ]
]

replay_refines_example :
    (get (replay (new_hash_ring list_keys 3 64) a_then_b) (codes "2") ≡ ok (codes "b"))
    ↔ Serves 3 (joined nobody a_then_b) (codes "2") (codes "b")
unfolding bytes_beq
replay_refines_example =
    replay_refines pair 3 64 pair-Apart list_keys a_then_b (refl, (refl, tt)) (codes "2")
      (codes "b")
