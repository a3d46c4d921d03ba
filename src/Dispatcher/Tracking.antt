-- ===== src/Dispatcher/Tracking.antt =====
-- One Hash service of a dispatcher over a history of etcd events, against the set of the keys that
-- etcd holds in its directory.
use newtbig.Prelude.{
  ℕ, ◌≡◌, refl, sym, subst, true, false, List, [], ◌∷◌, ◌++◌, map, Option, none, some, arith,
  nat_eq, ◌==◌, bytes_eq, bytes_beq_iff, if◌then◌else◌, Bytes, lookup, insert, lookup-insert, All,
  Bool-cases, Option-cases, inl, inr,
}
use newtbig.Common.{hash_route}
use newtbig.Options.{Options}
use newtbig.Ring.Interface.{SortedKeys}
use newtbig.Ring.Histories.{Members, join, leave, alter, nobody, Apart}
use newtbig.Dispatcher.Service
use newtbig.Dispatcher.Service.{Service, is_hash}
use newtbig.Dispatcher.{
  Dispatcher, Event, put, delete, init, service_name, service_or_new, is_excluded, type_of,
  add_service, remove_service, handle, watcher, connect_all, start,
}
use newtbig.Dispatcher.Service.Tracking.{Tracks, register_in-Tracks, del_proxy-Tracks, new-Tracks}

-- The keys of a directory that etcd holds after an event.
unfoldable pub alive_after : Bytes → Members → Event → Members
alive_after name p (put key value) = if service_name key == name then alter p (join key) else p
alive_after name p (delete key) = if service_name key == name then alter p (leave key) else p

unfoldable pub alive : Bytes → Members → List Event → Members
alive name p [] = p
alive name p (e ∷ events) = alive name (alive_after name p e) events

abbrev pub key_of : Event → Bytes
key_of (put key value) = key
key_of (delete key) = key

-- The keys of the directory that the events name are in a given set.
abbrev pub Named : Bytes → Members → List Event → Type 0
Named name among events =
    All (λ e. (if service_name (key_of e) == name then among (key_of e) else true) ≡ true) events

alive_after_other :
    (name : Bytes) (live : Members) (e : Event)
    → (service_name (key_of e) == name) ≡ false
    → alive_after name live e ≡ live
unfolding alive_after
alive_after_other name live (put key value) o = rw o refl
alive_after_other name live (delete key) o = rw o refl

module _ {S : SortedKeys} (among : Members) (rep : ℕ) (apart : Apart rep among) where
  -- A dispatcher that has a service configured as Hash, and tracks the keys of its directory.
  pub record TracksAt (name : Bytes) (live : Members) (d : Dispatcher S) : Type 0 where
    pub typed : type_of d name ≡ hash_route
    pub replicas : d.opts.dis_rep ≡ rep
    pub tracks : Tracks among rep live (service_or_new d name)

  pub hash_admitted :
      (d : Dispatcher S) (name : Bytes) → type_of d name ≡ hash_route → is_excluded d name ≡ false
  hash_admitted d name t = ground arith

  -- Writing the service keeps the rest of the dispatcher.
  write-TracksAt :
      (name : Bytes) (live live' : Members) (d : Dispatcher S) (ser : Service S)
      → TracksAt name live d
      → Tracks among rep live' ser
      → TracksAt name live' (record d { services = insert name ser d.services })
  write-TracksAt name live live' d ser t u = record {
    typed = t.typed;
    replicas = t.replicas;
    tracks =
        rw (service_or_new, lookup-insert name name ser d.services)
          (rw ((bytes_beq_iff name name).1 refl) u);
  }

  -- Writing another service keeps this one.
  keep-TracksAt :
      (name other : Bytes) (live : Members) (d : Dispatcher S) (ser : Service S)
      → (other == name) ≡ false
      → TracksAt name live d
      → TracksAt name live (record d { services = insert other ser d.services })
  keep-TracksAt name other live d ser o t = record {
    typed = t.typed;
    replicas = t.replicas;
    tracks = rw (service_or_new, lookup-insert other name ser d.services) (rw o t.tracks);
  }

  -- Where the service is not there, no key of the directory is registered.
  absent-TracksAt :
      (key : Bytes) (live : Members) (d : Dispatcher S)
      → lookup (service_name key) d.services ≡ none
      → TracksAt (service_name key) live d
      → TracksAt (service_name key) (alter live (leave key)) d
  unfolding Service.init lookup alter
  absent-TracksAt key live d f t = record {
    typed = t.typed;
    replicas = t.replicas;
    tracks = record {
      served = λ k. ground (arith, t.tracks.served k);
      hashed = t.tracks.hashed;
      full = t.tracks.full;
    };
  }

  add_service-TracksAt :
      (key value : Bytes) (live : Members) (d : Dispatcher S)
      → among key ≡ true
      → TracksAt (service_name key) live d
      → TracksAt (service_name key) (alter live (join key)) (add_service d key value)
  unfolding add_service
  add_service-TracksAt key value live d i t = rw (hash_admitted d (service_name key) t.typed) (
      write-TracksAt (service_name key) live _ d _ t
        (register_in-Tracks among rep apart live _ key value i t.tracks))

  remove_service-TracksAt :
      (key : Bytes) (live : Members) (d : Dispatcher S)
      → among key ≡ true
      → TracksAt (service_name key) live d
      → TracksAt (service_name key) (alter live (leave key)) (remove_service d key).0
  unfolding remove_service
  remove_service-TracksAt key live d i t =
      elim (Option-cases (lookup (service_name key) d.services)) [
        | inl f ↦
            rw (hash_admitted d (service_name key) t.typed, f, remove_service)
              (absent-TracksAt key live d f t)
        | inr (ser, f) ↦
            rw (hash_admitted d (service_name key) t.typed, f, remove_service)
              (write-TracksAt (service_name key) live _ d _ t (
                del_proxy-Tracks among rep apart live ser key i
                  (subst (Tracks among rep live) (rw (service_or_new, f) refl) t.tracks)))
      ]

  other-TracksAt :
      (name : Bytes) (live : Members) (d : Dispatcher S) (e : Event)
      → (service_name (key_of e) == name) ≡ false
      → TracksAt name live d
      → TracksAt name live (handle d e)
  unfolding handle add_service remove_service
  other-TracksAt name live d (put key value) o t =
      elim (Bool-cases (is_excluded d (service_name key))) [
        | inl out ↦ rw out t
        | inr within ↦ rw within (keep-TracksAt name (service_name key) live d _ o t)
      ]
  other-TracksAt name live d (delete key) o t =
      elim (Bool-cases (is_excluded d (service_name key))) [
        | inl out ↦ rw (out, handle, remove_service) t
        | inr within ↦ elim (Option-cases (lookup (service_name key) d.services)) [
          | inl f ↦ rw (within, f, handle, remove_service) t
          | inr (ser, f) ↦
              rw (within, f, handle, remove_service)
                (keep-TracksAt name (service_name key) live d _ o t)
        ]
      ]

  same-TracksAt :
      (name : Bytes) (live : Members) (d : Dispatcher S) (e : Event)
      → service_name (key_of e) ≡ name
      → among (key_of e) ≡ true
      → TracksAt name live d
      → TracksAt name (alive_after (service_name (key_of e)) live e) (handle d e)
  unfolding alive_after handle
  same-TracksAt name live d (put key value) e i t =
      subst
        (λ n.
          TracksAt n (alive_after (service_name key) live (put key value))
            (add_service d key value))
        e
        (rw ((bytes_beq_iff (service_name key) _).1 refl)
          (add_service-TracksAt key value live d i (subst (λ n. TracksAt n live d) (sym e) t)))
  same-TracksAt name live d (delete key) e i t =
      subst
        (λ n.
          TracksAt n (alive_after (service_name key) live (delete key)) (remove_service d key).0)
        e
        (rw ((bytes_beq_iff (service_name key) _).1 refl)
          (remove_service-TracksAt key live d i (subst (λ n. TracksAt n live d) (sym e) t)))

  pub step-TracksAt :
      (name : Bytes) (live : Members) (d : Dispatcher S) (e : Event)
      → (if service_name (key_of e) == name then among (key_of e) else true) ≡ true
      → TracksAt name live d
      → TracksAt name (alive_after name live e) (handle d e)
  step-TracksAt name live d e i t = elim (Bool-cases (service_name (key_of e) == name)) [
    | inl same ↦
        let at = (bytes_beq_iff (service_name (key_of e)) name).0 same in
        subst (λ n. TracksAt name (alive_after n live e) (handle d e)) at
          (same-TracksAt name live d e at (ground arith) t)
    | inr o ↦ rw (alive_after_other name live e o) (other-TracksAt name live d e o t)
  ]

  pub watcher-TracksAt :
      (name : Bytes) (live : Members) (d : Dispatcher S) (events : List Event)
      → Named name among events
      → TracksAt name live d
      → TracksAt name (alive name live events) (watcher d events)
  unfolding alive watcher
  watcher-TracksAt name live d [] w t = t
  watcher-TracksAt name live d (e ∷ events) w t =
      watcher-TracksAt name (alive_after name live e) (handle d e) events w.1
        (step-TracksAt name live d e w.0 t)

  pub init-TracksAt :
      (name : Bytes) (opts : Options)
      → opts.dis_rep ≡ rep
      → type_of (init S opts) name ≡ hash_route
      → TracksAt name nobody (init S opts)
  unfolding init lookup
  init-TracksAt name opts e t = record {
    typed = t;
    replicas = e;
    tracks = rw (service_or_new, t) (new-Tracks among rep apart name opts e);
  }

-- What a dispatcher has seen: the keys of its start as registrations, and then the events.
abbrev pub seen_after : Option (List (Bytes × Bytes)) → List Event → List Event
seen_after none events = events
seen_after (some kvs) events = map (λ kv. put kv.0 kv.1) kvs ++ events

-- A dispatcher that reads the keys at its start and then watches.
unfoldable pub started :
    (S : SortedKeys) → Options → Option (List (Bytes × Bytes)) → List Event → Dispatcher S
started S opts resp events = watcher (start (init S opts) resp) events

pub watcher-connect_all :
    {S : SortedKeys} (d : Dispatcher S) (kvs : List (Bytes × Bytes)) (events : List Event)
    → watcher (connect_all d kvs) events ≡ watcher d (map (λ kv. put kv.0 kv.1) kvs ++ events)
unfolding connect_all watcher handle
watcher-connect_all d [] events = refl
watcher-connect_all d ((key, value) ∷ kvs) events =
    watcher-connect_all (add_service d key value) kvs events

-- Reading the keys is seeing them come.
pub started_seen :
    (S : SortedKeys) (opts : Options) (resp : Option (List (Bytes × Bytes))) (events : List Event)
    → started S opts resp events ≡ watcher (init S opts) (seen_after resp events)
unfolding started start
started_seen S opts none events = refl
started_seen S opts (some kvs) events = watcher-connect_all (init S opts) kvs events
