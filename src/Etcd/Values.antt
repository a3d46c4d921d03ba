-- ===== src/Etcd/Values.antt =====
-- The values under etcd's keys, over a history of events.
use newtbig.Prelude.{
  ◌≡◌, refl, ◌∙◌, ap, false, List, [], ◌∷◌, ◌++◌, Option, none, some, arith, nat_eq, ◌==◌, bytes_eq,
  bytes_beq_iff, if◌then◌else◌, Bytes, lookup, is_some, IsUnique, Bool-cases, inl, inr,
}
use newtbig.Ring.Histories.{Members, alter}
use newtbig.Dispatcher.{Event, put, delete, service_name}
use newtbig.Dispatcher.Tracking.{key_of}
use newtbig.Etcd.History.{held, held_after, Elsewhere, puts}

-- The last value that is put under a key, until the key is deleted.
unfoldable pub value_after : Bytes → Option Bytes → Event → Option Bytes
value_after k v (put key value) = if key == k then some value else v
value_after k v (delete key) = if key == k then none else v

unfoldable pub last_value : Bytes → Option Bytes → List Event → Option Bytes
last_value k v [] = v
last_value k v (e ∷ events) = last_value k (value_after k v e) events

-- A key in another directory is another key.
other_key : (key k : Bytes) → (service_name key == service_name k) ≡ false → (key == k) ≡ false
other_key key k o = elim (Bool-cases (key == k)) [
  | inr n ↦ n
  | inl y ↦
      let same = ap service_name ((bytes_beq_iff key k).0 y) in
      ground (arith, same, bytes_beq_iff (service_name key) (service_name k))
]

pub value_after_elsewhere :
    (k : Bytes) (v : Option Bytes) (e : Event)
    → (service_name (key_of e) == service_name k) ≡ false
    → value_after k v e ≡ v
unfolding value_after
value_after_elsewhere k v (put key value) o = rw (other_key key k o) refl
value_after_elsewhere k v (delete key) o = rw (other_key key k o) refl

-- A key is held while it has a value.
pub is_some-last_value :
    (k : Bytes) (v : Option Bytes) (p : Members) (events : List Event)
    → is_some v ≡ p k
    → is_some (last_value k v events) ≡ held p events k
unfolding last_value value_after held held_after alter
is_some-last_value k v p [] e = e
is_some-last_value k v p (put key value ∷ events) e =
    is_some-last_value k (value_after k v (put key value)) (held_after p (put key value)) events
      (ground (arith, e))
is_some-last_value k v p (delete key ∷ events) e =
    is_some-last_value k (value_after k v (delete key)) (held_after p (delete key)) events
      (ground (arith, e))

pub last_value-append :
    (k : Bytes) (v : Option Bytes) (xs ys : List Event)
    → last_value k v (xs ++ ys) ≡ last_value k (last_value k v xs) ys
unfolding last_value
last_value-append k v [] ys = refl
last_value-append k v (x ∷ xs) ys = last_value-append k (value_after k v x) xs ys

pub last_value-Elsewhere :
    (k : Bytes) (v : Option Bytes) (events : List Event)
    → Elsewhere (service_name k) events
    → last_value k v events ≡ v
unfolding last_value
last_value-Elsewhere k v [] a = refl
last_value-Elsewhere k v (e ∷ events) a =
    ap (λ w. last_value k w events) (value_after_elsewhere k v e a.0)
    ∙ last_value-Elsewhere k v events a.1

abbrev pub or_else : Option Bytes → Option Bytes → Option Bytes
or_else none v = v
or_else (some w) v = some w

-- Reading the keys that are listed gives their values.
pub last_value-puts :
    (k : Bytes) (v : Option Bytes) (kvs : List (Bytes × Bytes))
    → IsUnique kvs
    → last_value k v (puts kvs) ≡ or_else (lookup k kvs) v
unfolding last_value value_after lookup
last_value-puts k v [] u = refl
last_value-puts k v ((key, value) ∷ kvs) u =
    ground (arith, last_value-puts k (value_after k v (put key value)) kvs u.1, bytes_beq_iff key k)
