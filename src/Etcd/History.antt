-- ===== src/Etcd/History.antt =====
-- The history of etcd's keys that a dispatcher reads and watches.
use newtbig.Prelude.{
  ℕ, ◌+◌, ◌≡◌, refl, sym, ◌∙◌, ap, Bool, true, false, List, [], ◌∷◌, ◌++◌, map, Option, none, some,
  arith, ◌==◌, nat_eq, bytes_eq, bytes_beq_iff, if◌then◌else◌, Bytes, lookup, is_some, drop,
  drop-append, length, All, Bool-cases, inl, inr,
}
use mathlib.Core.List.{append_assoc}
use newtbig.Ring.Histories.{Members, join, leave, alter}
use newtbig.Dispatcher.{Event, put, delete, service_name}
use newtbig.Etcd.{watch}
use newtbig.Dispatcher.Tracking.{alive, alive_after, key_of}

-- The keys that etcd holds after events.
unfoldable pub held_after : Members → Event → Members
held_after p (put key value) = alter p (join key)
held_after p (delete key) = alter p (leave key)

unfoldable pub held : Members → List Event → Members
held p [] = p
held p (e ∷ events) = held (held_after p e) events

-- etcd reports the deletion of keys that it holds alone.
abbrev pub IsHistory : Members → List Event → Type 0
IsHistory p [] = Unit
IsHistory p (put key value ∷ events) = IsHistory (held_after p (put key value)) events
IsHistory p (delete key ∷ events) = (p key ≡ true) × IsHistory (held_after p (delete key)) events

-- What a Get lists: the keys that are held.
abbrev pub Lists : Members → List (Bytes × Bytes) → Type 0
Lists p kvs = (k : Bytes) → is_some (lookup k kvs) ≡ p k

abbrev pub puts : List (Bytes × Bytes) → List Event
puts kvs = map (λ kv. put kv.0 kv.1) kvs

pub held-append : (p : Members) (xs ys : List Event) → held p (xs ++ ys) ≡ held (held p xs) ys
unfolding held
held-append p [] ys = refl
held-append p (x ∷ xs) ys = held-append (held_after p x) xs ys

pub held-puts :
    (p : Members) (kvs : List (Bytes × Bytes)) (k : Bytes)
    → held p (puts kvs) k ≡ (if is_some (lookup k kvs) then true else p k)
unfolding held held_after alter lookup
held-puts p [] k = refl
held-puts p ((key, value) ∷ kvs) k = ground (arith, held-puts (held_after p (put key value)) kvs k)

-- The part of the held keys that is in a directory.
abbrev pub Part : Bytes → Members → Members → Type 0
Part name h p = (k : Bytes) → p k ≡ (if service_name k == name then h k else false)

pub alive_after-Part :
    (name : Bytes) (h p : Members) (e : Event)
    → Part name h p
    → Part name (held_after h e) (alive_after name p e)
unfolding alive_after held_after alter
alive_after-Part name h p (put key value) part k = elim (Bool-cases (service_name key == name)) [
  | inl e ↦ ground (arith, part k, bytes_beq_iff key k)
  | inr e ↦ ground (arith, part k, bytes_beq_iff key k)
]
alive_after-Part name h p (delete key) part k = elim (Bool-cases (service_name key == name)) [
  | inl e ↦ ground (arith, part k, bytes_beq_iff key k)
  | inr e ↦ ground (arith, part k, bytes_beq_iff key k)
]

-- A dispatcher's keys of a directory stay the part of what etcd holds.
pub alive-Part :
    (name : Bytes) (h p : Members) (events : List Event)
    → Part name h p
    → Part name (held h events) (alive name p events)
unfolding alive held
alive-Part name h p [] part = part
alive-Part name h p (e ∷ events) part =
    alive-Part name (held_after h e) (alive_after name p e) events
      (alive_after-Part name h p e part)

-- Events in other directories leave the keys of a directory.
abbrev pub Elsewhere : Bytes → List Event → Type 0
Elsewhere name = All (λ e. (service_name (key_of e) == name) ≡ false)

pub held-Elsewhere :
    (name : Bytes) (h : Members) (events : List Event) (k : Bytes)
    → Elsewhere name events
    → (service_name k == name) ≡ true
    → held h events k ≡ h k
unfolding held held_after alter
held-Elsewhere name h [] k a i = refl
held-Elsewhere name h (put key value ∷ events) k a i =
    ground (arith, held-Elsewhere name (held_after h (put key value)) events k, bytes_beq_iff key k)
held-Elsewhere name h (delete key ∷ events) k a i =
    ground (arith, held-Elsewhere name (held_after h (delete key)) events k, bytes_beq_iff key k)

-- WithPrefix: the events of the keys that begin with a root.
unfoldable pub has_prefix : Bytes → Bytes → Bool
has_prefix [] k = true
has_prefix (b ∷ root) [] = false
has_prefix (b ∷ root) (c ∷ k) = if b == c then has_prefix root k else false

unfoldable pub under : Bytes → List Event → List Event
under root [] = []
under root (e ∷ events) =
    let rest = under root events in if has_prefix root (key_of e) then e ∷ rest else rest

-- The events of responses, or of revisions, one after another.
abbrev pub events_of : List (List Event) → List Event
events_of [] = []
events_of (events ∷ responses) = events ++ events_of responses

pub events_of-append :
    (xs ys : List (List Event)) → events_of (xs ++ ys) ≡ events_of xs ++ events_of ys
events_of-append [] ys = refl
events_of-append (x ∷ xs) ys =
    ap (λ es. x ++ es) (events_of-append xs ys) ∙ sym (append_assoc x (events_of xs) (events_of ys))

-- What etcd sends of a log to a watch of a prefix from a revision, WithRev and WithPrefix: the events
-- of that revision and of the later ones. A revision has the events of one request; the first one is
-- that after `base`.
pub record Watches (log : List Event) : Type 0 where
  pub base : ℕ
  pub revisions : List (List Event)
  pub logged : log ≡ events_of revisions
  pub sent : Bytes → ℕ → List Event
  pub sends :
      (root : Bytes) (n : ℕ) → sent root (base + 1 + n) ≡ under root (events_of (drop n revisions))

-- What the watcher takes from the channel of Watch; where Watch fails, it returns at once.
unfoldable pub watched : {log : List Event} → Watches log → Bytes → Option ℕ → List Event
watched w root none = []
watched w root (some revision) = w.sent root revision

pub under-append :
    (root : Bytes) (xs ys : List Event) → under root (xs ++ ys) ≡ under root xs ++ under root ys
unfolding under
under-append root [] ys = refl
under-append root (x ∷ xs) ys = ground (arith, under-append root xs ys)

-- Watch after a Get delivers what comes after the Get.
pub watched-watch :
    {log : List Event} (w : Watches log) (root : Bytes) (before after : List (List Event))
    → w.revisions ≡ before ++ after
    → watched w root (watch (some (w.base + length before))) ≡ under root (events_of after)
unfolding watched watch
watched-watch w root before after whole =
    ap (w.sent root) (omega arith)
    ∙ w.sends root (length before)
    ∙ ap (λ l. under root (events_of (drop (length before) l))) whole
    ∙ ap (λ l. under root (events_of l)) (drop-append before after)

pub alive-append :
    (name : Bytes) (p : Members) (xs ys : List Event)
    → alive name p (xs ++ ys) ≡ alive name (alive name p xs) ys
unfolding alive
alive-append name p [] ys = refl
alive-append name p (x ∷ xs) ys = alive-append name (alive_after name p x) xs ys

pub IsHistory-right :
    (p : Members) (xs ys : List Event) → IsHistory p (xs ++ ys) → IsHistory (held p xs) ys
unfolding held
IsHistory-right p [] ys w = w
IsHistory-right p (put key value ∷ xs) ys w = IsHistory-right (held_after p (put key value)) xs ys w
IsHistory-right p (delete key ∷ xs) ys w = IsHistory-right (held_after p (delete key)) xs ys w.1
