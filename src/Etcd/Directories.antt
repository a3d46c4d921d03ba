-- ===== src/Etcd/Directories.antt =====
-- What a directory's dispatcher may assume of the keys that it reads from etcd and of the events
-- that it watches.
use newtbig.Prelude.{
  ◌≡◌, refl, true, List, [], ◌∷◌, ◌++◌, arith, ◌==◌, nat_eq, bytes_eq, bytes_beq_iff, Bytes, lookup,
  is_some,
}
use newtbig.Ring.Histories.{Members, alter}
use newtbig.Dispatcher.{Event, put, delete, service_name}
use newtbig.Dispatcher.Tracking.{alive, alive_after, Named}
use newtbig.Dispatcher.Counting.{Proper}
use newtbig.Etcd.History.{held, held_after, IsHistory, Part, alive_after-Part, puts}

-- The keys in a directory that come to be held are those that the events name.
pub Named-among :
    (name : Bytes) (among h : Members) (events : List Event) (k : Bytes)
    → Named name among events
    → (service_name k == name) ≡ true
    → (h k ≡ true → among k ≡ true)
    → held h events k ≡ true
    → among k ≡ true
unfolding held held_after alter
Named-among name among h [] k w i before e = before e
Named-among name among h (put key value ∷ events) k w i before e =
    Named-among name among (held_after h (put key value)) events k w.1 i
      (λ now. ground (arith, w.0, before, bytes_beq_iff key k)) e
Named-among name among h (delete key ∷ events) k w i before e =
    Named-among name among (held_after h (delete key)) events k w.1 i
      (λ now. ground (arith, before, bytes_beq_iff key k)) e

-- What a Get lists is named where what is held is.
pub puts-Named :
    (name : Bytes) (among : Members) (kvs : List (Bytes × Bytes))
    → ((k : Bytes)
        → is_some (lookup k kvs) ≡ true
        → (service_name k == name) ≡ true
        → among k ≡ true)
    → Named name among (puts kvs)
unfolding lookup
puts-Named name among [] h = tt
puts-Named name among ((key, value) ∷ kvs) h = (
  ground (arith, h key, bytes_beq_iff key key),
  puts-Named name among kvs (λ k e i. h k (ground (arith, e)) i),
)

-- A history of etcd deletes registered keys of a directory only.
pub IsHistory-Proper :
    (name : Bytes) (h p : Members) (events : List Event)
    → Part name h p
    → IsHistory h events
    → Proper name p events
IsHistory-Proper name h p [] part w = tt
IsHistory-Proper name h p (put key value ∷ events) part w = (
  refl,
  IsHistory-Proper name (held_after h (put key value)) (alive_after name p (put key value)) events
      (alive_after-Part name h p (put key value) part) w,
)
IsHistory-Proper name h p (delete key ∷ events) part w = (
  ground (arith, part key),
  IsHistory-Proper name (held_after h (delete key)) (alive_after name p (delete key)) events
      (alive_after-Part name h p (delete key) part) w.1,
)

pub puts-Proper :
    (name : Bytes) (p : Members) (kvs : List (Bytes × Bytes)) (events : List Event)
    → Proper name (alive name p (puts kvs)) events
    → Proper name p (puts kvs ++ events)
unfolding alive
puts-Proper name p [] events w = w
puts-Proper name p ((key, value) ∷ kvs) events w =
    (refl, puts-Proper name (alive_after name p (put key value)) kvs events w)
