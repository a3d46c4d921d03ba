-- ===== src/Ring.antt =====
-- The consistent hash ring, dispatcher/hash/hash_ring.go. A method that writes returns the new
-- ring. The read-write lock makes each method one step, so it has no part in the model.
pub mod Interface
pub mod Crc32
pub mod Points
pub mod Invariant
pub mod Lookup
pub mod Consistency
pub mod Histories
pub mod Agreement
use newtbig.Prelude.{
  ℕ, zero, suc, ◌+◌, ◌-◌, ◌<◌, Bool, true, false, List, [], ◌∷◌, ◌++◌, Option, none, some, ltb,
  ◌==◌, nat_eq, bytes_eq, if◌then◌else◌, length, take, Bytes, Assoc, is_some, keys, lookup, insert,
  erase, Result, ok, err,
}
use newtbig.Strings.Decimal.{itoa}
use Interface.{SortedKeys}
use Crc32.{checksum_ieee}

pub data RingError : Type 0 where
  empty_ring : RingError

zeros : ℕ → Bytes
zeros zero = []
zeros (suc n) = 0 ∷ zeros n

-- Short keys go through a scratch array of 64 bytes.
unfoldable pub hash_key : Bytes → ℕ
unfolding zeros
hash_key key =
    if ltb (length key) 64
    then checksum_ieee (take (length key) (key ++ zeros (64 - length key)))
    else checksum_ieee key

unfoldable pub elt_key : Bytes → ℕ → Bytes
elt_key elt idx = itoa idx ++ elt

-- Go's zero value for a missing key of `map[uint32]string`.
abbrev pub or_empty : Option Bytes → Bytes
or_empty none = []
or_empty (some s) = s

-- strconv.FormatInt of a signed value, given by its sign and magnitude.
unfoldable pub format_int : Bool → ℕ → Bytes
format_int negative n = if negative then b'-' ∷ itoa n else itoa n

pub record HashRing (S : SortedKeys) : Type 0 where
  pub ring_map : Assoc ℕ Bytes
  pub member_map : Assoc Bytes Bool
  pub sorted_keys : S.Keys
  pub rep : ℕ
  pub len : ℕ

module _ (S : SortedKeys) where
  unfoldable pub new_hash_ring : ℕ → ℕ → HashRing S
  new_hash_ring rep len = record {
    ring_map = [];
    member_map = [];
    sorted_keys = S.new;
    rep = rep;
    len = len;
  }

module _ {S : SortedKeys} where
  unfoldable pub add_int : ℕ → Bytes → HashRing S → HashRing S
  add_int id elt hr = record hr {
    ring_map = insert id elt hr.ring_map;
    sorted_keys = S.put id hr.sorted_keys;
    member_map = insert elt true hr.member_map;
  }

  unfoldable pub remove_int : ℕ → HashRing S → HashRing S
  remove_int id hr = record hr {
    ring_map = erase id hr.ring_map;
    sorted_keys = S.remove id hr.sorted_keys;
    member_map = erase (or_empty (lookup id hr.ring_map)) hr.member_map;
  }

  -- The loop of `add` with `n` rounds left, at index `i`.
  unfoldable pub add_loop : ℕ → ℕ → Bytes → HashRing S → List ℕ → HashRing S × List ℕ
  add_loop zero i elt hr rst = (hr, rst)
  add_loop (suc n) i elt hr rst =
      let id = hash_key (elt_key elt i) in
      add_loop n (i + 1) elt
        (record hr { ring_map = insert id elt hr.ring_map; sorted_keys = S.put id hr.sorted_keys })
        (rst ++ id ∷ [])

  unfoldable pub add : HashRing S → Bytes → HashRing S × List ℕ
  add hr elt =
      let (hr', rst) = add_loop hr.rep 0 elt hr [] in
      (record hr' { member_map = insert elt true hr'.member_map }, rst)

  unfoldable pub remove_loop : ℕ → ℕ → Bytes → HashRing S → HashRing S
  remove_loop zero i elt hr = hr
  remove_loop (suc n) i elt hr =
      let id = hash_key (elt_key elt i) in
      remove_loop n (i + 1) elt
        (record hr { ring_map = erase id hr.ring_map; sorted_keys = S.remove id hr.sorted_keys })

  unfoldable pub remove : HashRing S → Bytes → HashRing S
  remove hr elt =
      let hr' = remove_loop hr.rep 0 elt hr in record hr' { member_map = erase elt hr'.member_map }

  unfoldable pub has_member : HashRing S → Bytes → Bool
  has_member hr elt = is_some (lookup elt hr.member_map)

  unfoldable pub members : HashRing S → List Bytes
  members hr = keys hr.member_map

  -- The owner of the first point at or after `key`, or of the first point of all.
  unfoldable pub owner_at : HashRing S → ℕ → Result RingError Bytes
  owner_at hr key = elim (S.ceiling key hr.sorted_keys) [
    | some node ↦ ok (or_empty (lookup node hr.ring_map))
    | none ↦ elim (S.first hr.sorted_keys) [
      | some node ↦ ok (or_empty (lookup node hr.ring_map))
      | none ↦ err empty_ring
    ]
  ]

  unfoldable pub get : HashRing S → Bytes → Result RingError Bytes
  get hr name = if length hr.ring_map == 0 then err empty_ring else owner_at hr (hash_key name)

  unfoldable pub get64 : HashRing S → Bool → ℕ → Result RingError ℕ
  get64 hr negative n =
      if length hr.ring_map == 0
      then err empty_ring
      else elim (owner_at hr (hash_key (format_int negative n))) [
        | ok elt ↦ ok (hash_key elt)
        | err e ↦ err e
      ]
