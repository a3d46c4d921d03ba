-- ===== src/Dispatcher/Counting.antt =====
-- The count of one Hash service over a history of etcd events in which only registered keys are
-- deleted: it is the number of the proxies, so an id is routed as soon as a key is registered.
use newtbig.Prelude.{
  ℕ, ◌+◌, ◌≤◌, ◌<◌, ◌^◌, ◌≡◌, ◌≢◌, refl, sym, ◌∙◌, subst, Bool, true, false, List, [], ◌∷◌, Option,
  some, arith, nat_eq, ◌==◌, bytes_eq, bytes_beq_iff, if◌then◌else◌, Bytes, lookup, insert, length,
  length-insert, length_pos, lookup-insert, is_some, Bool-cases, Option-cases, inl, inr, ok,
}
use newtbig.Options.{Options}
use newtbig.Strings.Decimal.{itoa}
use newtbig.Ring.Interface.{SortedKeys}
use newtbig.Ring.Histories.{Members, nobody, Apart}
use newtbig.Dispatcher.Proxy
use newtbig.Dispatcher.Proxy.{Proxy}
use newtbig.Dispatcher.Service
use newtbig.Dispatcher.Service.{Service}
use newtbig.Dispatcher.Service.Invariant.{IsService}
use newtbig.Dispatcher.Service.Count.{
  IsCounted, create_proxy-IsCounted, del_proxy-IsCounted, create_proxy_length, del_proxy_length,
}
use newtbig.Dispatcher.Service.Tracking.{Tracks, IsFull}
use newtbig.Dispatcher.Invariant.{IsDispatcher, init-IsDispatcher, handle-IsDispatcher}
use newtbig.Dispatcher.{
  Dispatcher, Event, put, delete, service_name, register_in, service_or_new, is_excluded,
  add_service, remove_service, handle, watcher, init, get_proxy,
}
use newtbig.Dispatcher.Tracking.{
  alive_after, alive, key_of, Named, TracksAt, hash_admitted, step-TracksAt, init-TracksAt,
  watcher-TracksAt, seen_after, started, started_seen,
}
use newtbig.Dispatcher.Agreement.{Starts, service_after, ring_of, route_by_id-of_Serves}
use newtbig.Ring.Agreement.{Serves, Serves-of_Stands}
use newtbig.Ring.Points.{is_point_first}
use newtbig.Ring.{hash_key, elt_key}

-- Every key of the directory that is deleted is registered at that time.
abbrev pub is_proper : Bytes → Members → Event → Bool
is_proper name live (put key value) = true
is_proper name live (delete key) = if service_name key == name then live key else true

abbrev pub Proper : Bytes → Members → List Event → Type 0
Proper name live [] = Unit
Proper name live (e ∷ events) =
    (is_proper name live e ≡ true) × Proper name (alive_after name live e) events

module _ {S : SortedKeys} where
  -- The count is right, and there are at most so many proxies.
  abbrev pub IsBounded : ℕ → Service S → Type 0
  IsBounded n ser = IsCounted ser × (length ser.proxy_map ≤ n)

  register_in-IsBounded :
      (n : ℕ) (ser : Service S) (key value : Bytes)
      → IsBounded n ser
      → IsBounded (n + 1) (register_in ser key value)
  unfolding register_in Service.get_proxy
  register_in-IsBounded n ser key value (c, b) = elim (Option-cases (lookup key ser.proxy_map)) [
    | inl e ↦
        rw (e, register_in)
          (
            create_proxy-IsCounted ser key value e c,
            omega (arith, b, create_proxy_length ser key value),
          )
    | inr (p, e) ↦
        rw (e, register_in)
          (
            ground (arith, c, e, length-insert key (Proxy.update p value) ser.proxy_map),
            ground (arith, b, e, length-insert key (Proxy.update p value) ser.proxy_map),
          )
  ]

  del_proxy-IsBounded :
      (n : ℕ) (ser : Service S) (key : Bytes)
      → IsService ser
      → is_some (lookup key ser.proxy_map) ≡ true
      → IsBounded n ser
      → IsBounded (n + 1) (Service.del_proxy ser key)
  del_proxy-IsBounded n ser key v known (c, b) =
      (del_proxy-IsCounted ser key v known c, omega (arith, b, del_proxy_length ser key v))

  -- The service after each kind of event.
  pub service_or_new-write :
      (name : Bytes) (d : Dispatcher S) (ser : Service S)
      → service_or_new (record d { services = insert name ser d.services }) name ≡ ser
  service_or_new-write name d ser =
      rw (service_or_new, lookup-insert name name ser d.services)
        (rw ((bytes_beq_iff name name).1 refl) refl)

  service_or_new-keep :
      (name other : Bytes) (d : Dispatcher S) (ser : Service S)
      → (other == name) ≡ false
      → service_or_new (record d { services = insert other ser d.services }) name
        ≡ service_or_new d name
  service_or_new-keep name other d ser o =
      rw (service_or_new, lookup-insert other name ser d.services) (rw o refl)

  pub service_or_new-other :
      (name : Bytes) (d : Dispatcher S) (e : Event)
      → (service_name (key_of e) == name) ≡ false
      → service_or_new (handle d e) name ≡ service_or_new d name
  unfolding handle add_service remove_service
  service_or_new-other name d (put key value) o =
      elim (Bool-cases (is_excluded d (service_name key))) [
        | inl out ↦ rw out refl
        | inr within ↦ rw within (service_or_new-keep name (service_name key) d _ o)
      ]
  service_or_new-other name d (delete key) o =
      elim (Bool-cases (is_excluded d (service_name key))) [
        | inl out ↦ rw (out, handle, remove_service) refl
        | inr within ↦ elim (Option-cases (lookup (service_name key) d.services)) [
          | inl f ↦ rw (within, f, handle, remove_service) refl
          | inr (ser, f) ↦
              rw (within, f, handle, remove_service)
                (service_or_new-keep name (service_name key) d _ o)
        ]
      ]

  pub service_or_new-put :
      (d : Dispatcher S) (key value : Bytes)
      → is_excluded d (service_name key) ≡ false
      → service_or_new (add_service d key value) (service_name key)
        ≡ register_in (service_or_new d (service_name key)) key value
  unfolding add_service
  service_or_new-put d key value within = rw within (service_or_new-write (service_name key) d _)

  remove_service-IsBounded :
      (n : ℕ) (d : Dispatcher S) (key : Bytes)
      → IsDispatcher d
      → is_excluded d (service_name key) ≡ false
      → is_some (lookup key (service_or_new d (service_name key)).proxy_map) ≡ true
      → IsBounded n (service_or_new d (service_name key))
      → IsBounded (n + 1) (service_or_new (remove_service d key).0 (service_name key))
  unfolding remove_service
  remove_service-IsBounded n d key v within known b =
      elim (Option-cases (lookup (service_name key) d.services)) [
        | inl f ↦ rw (within, f, remove_service) (b.0, omega (arith, b.1))
        | inr (ser, f) ↦
            let same : service_or_new d (service_name key) ≡ ser = rw (service_or_new, f) refl in
            rw (within, f, remove_service)
              (subst (IsBounded (n + 1))
                (sym (service_or_new-write (service_name key) d (Service.del_proxy ser key)))
                (del_proxy-IsBounded n ser key (v.sound (service_name key) ser f)
                  (subst (λ s. is_some (lookup key s.proxy_map) ≡ true) same known)
                  (subst (IsBounded n) same b)))
      ]

module _ {S : SortedKeys} (among : Members) (rep : ℕ) (apart : Apart rep among) where
  step-IsBounded :
      (n : ℕ) (name : Bytes) (live : Members) (d : Dispatcher S) (e : Event)
      → IsDispatcher d
      → TracksAt among rep apart name live d
      → is_proper name live e ≡ true
      → IsBounded n (service_or_new d name)
      → IsBounded (n + 1) (service_or_new (handle d e) name)
  unfolding handle
  step-IsBounded n name live d e v t proper b =
      elim (Bool-cases (service_name (key_of e) == name)) [
        | inr o ↦
            subst (IsBounded (n + 1)) (sym (service_or_new-other name d e o))
              (b.0, omega (arith, b.1))
        | inl same ↦ at_key e ((bytes_beq_iff (service_name (key_of e)) name).0 same) same proper
      ]
    where
      at_key :
          (e : Event)
          → service_name (key_of e) ≡ name
          → (service_name (key_of e) == name) ≡ true
          → is_proper name live e ≡ true
          → IsBounded (n + 1) (service_or_new (handle d e) name)
      at_key (put key value) at same proper =
          let within = hash_admitted among rep apart d name t.typed in
          subst (λ x. IsBounded (n + 1) (service_or_new (add_service d key value) x)) at
            (subst (IsBounded (n + 1))
              (sym (
                service_or_new-put d key value
                  (subst (λ x. is_excluded d x ≡ false) (sym at) within)))
              (register_in-IsBounded n (service_or_new d (service_name key)) key value
                (subst (λ x. IsBounded n (service_or_new d x)) (sym at) b)))
      at_key (delete key) at same proper =
          let within = hash_admitted among rep apart d name t.typed in
          let known = t.tracks.served key ∙ ground (arith, proper, same) in
          subst (λ x. IsBounded (n + 1) (service_or_new (remove_service d key).0 x)) at
            (remove_service-IsBounded n d key v
              (subst (λ x. is_excluded d x ≡ false) (sym at) within)
              (subst (λ x. is_some (lookup key (service_or_new d x).proxy_map) ≡ true) (sym at)
                known)
              (subst (λ x. IsBounded n (service_or_new d x)) (sym at) b))

  watcher-IsBounded :
      (n : ℕ) (name : Bytes) (live : Members) (d : Dispatcher S) (events : List Event)
      → IsDispatcher d
      → TracksAt among rep apart name live d
      → Named name among events
      → Proper name live events
      → IsBounded n (service_or_new d name)
      → IsBounded (n + length events) (service_or_new (watcher d events) name)
  unfolding watcher
  watcher-IsBounded n name live d [] v t w proper b = (b.0, omega (arith, b.1))
  watcher-IsBounded n name live d (e ∷ events) v t w proper b =
      subst (λ m. IsBounded m (service_or_new (watcher (handle d e) events) name)) (omega arith)
        (watcher-IsBounded (n + 1) name (alive_after name live e) (handle d e) events
          (handle-IsDispatcher d e v) (step-TracksAt among rep apart name live d e w.0 t) w.1
          proper.1 (step-IsBounded n name live d e v t proper.0 b))

module _ (among : Members) (rep : ℕ) (apart : Apart rep among) (name : Bytes) where
  -- The service is there as soon as one of its keys is registered.
  service_there :
      {S : SortedKeys} (live : Members) (d : Dispatcher S) (key : Bytes)
      → TracksAt among rep apart name live d
      → live key ≡ true
      → (ser : Service S) × (lookup name d.services ≡ some ser)
  unfolding Service.init lookup
  service_there live d key t alive = elim (Option-cases (lookup name d.services)) [
    | inr (ser, f) ↦ (ser, f)
    | inl f ↦ absurd (ground (arith, t.tracks.served key, f, alive))
  ]

  -- The count of the service after a history of proper events.
  counted_after :
      (S : SortedKeys) (opts : Options) (events : List Event)
      → Starts S opts rep name
      → Named name among events
      → Proper name nobody events
      → IsBounded (0 + length events) (service_or_new (watcher (init S opts) events) name)
  unfolding init lookup Service.init
  counted_after S opts events (e, t) w proper =
      watcher-IsBounded among rep apart 0 name nobody (init S opts) events (init-IsDispatcher opts)
        (init-TracksAt among rep apart name opts e t) w proper (refl, omega arith)

  -- The ring of a tracked service with a key serves each id.
  served_by :
      {S : SortedKeys} (live : Members) (ser : Service S) (key : Bytes) (id : ℕ)
      → IsService ser
      → Tracks among rep live ser
      → 0 < rep
      → live key ≡ true
      → (elt : Bytes) × Serves rep live (itoa id) elt
  served_by live ser key id v t replicas there = elim (Option-cases ser.hashring) [
    | inl e ↦ absurd (subst (IsFull among rep) e t.full)
    | inr (hr, e) ↦
        Serves-of_Stands among live rep hr (ring_of among rep live ser v t hr e) key
          (hash_key (elt_key key 0)) (there, is_point_first rep key replicas) (itoa id)
  ]

  -- A tracked service with a key, and so many proxies, counts something.
  counts_some :
      {S : SortedKeys} (n : ℕ) (live : Members) (ser : Service S) (key : Bytes)
      → Tracks among rep live ser
      → IsBounded n ser
      → n < 2 ^ 32
      → live key ≡ true
      → ser.count ≢ 0
  counts_some n live ser key t (c, b) few there zero =
      omega (arith, c, b, few, zero, length_pos key ser.proxy_map (t.served key ∙ there))

  -- For a dispatcher with a service of a name that is not empty configured as Hash, with at least
  -- one replica, after any start and fewer than 2 ^ 32 registrations and events whose keys in the
  -- service's directory lie in a set of keys that share no replica id, and which delete a key of
  -- the directory only while it is registered: as soon as one key is registered at the end,
  -- GetProxy routes every id other than zero, to the proxy whose key serves it among the registered
  -- keys.
  pub get_proxy_finds :
      (S : SortedKeys) (opts : Options) (resp : Option (List (Bytes × Bytes))) (events : List Event)
      → Starts S opts rep name
      → Named name among (seen_after resp events)
      → Proper name nobody (seen_after resp events)
      → length (seen_after resp events) < 2 ^ 32
      → 0 < rep
      → name ≢ []
      → (key : Bytes) → alive name nobody (seen_after resp events) key ≡ true
      → (id : ℕ) → id ≢ 0
      → (p : Proxy) × (get_proxy (started S opts resp events) name id ≡ ok p)
        × Serves rep (alive name nobody (seen_after resp events)) (itoa id) p.key
  unfolding get_proxy
  get_proxy_finds S opts resp events c w proper few replicas named key there id some_id =
      let seen = seen_after resp events in
      let live = alive name nobody seen in
      let d = watcher (init S opts) seen in
      let (ser, f) =
        service_there live d key
          (watcher-TracksAt among rep apart name nobody (init S opts) seen w
            (init-TracksAt among rep apart name opts c.0 c.1))
          there in
      let (v, t) = service_after among rep apart name S opts seen c w ser f in
      let same : service_or_new d name ≡ ser = rw (service_or_new, f) refl in
      let counted =
        counts_some (0 + length seen) live ser key t
          (subst (IsBounded (0 + length seen)) same (counted_after S opts seen c w proper))
          (omega arith) there in
      let (elt, s) = served_by live ser key id v t replicas there in
      let (p, e, routed) = route_by_id-of_Serves among rep live ser id elt v t counted s in
      (
        p,
        subst (λ x. get_proxy x name id ≡ ok p) (sym (started_seen S opts resp events))
            (ground (arith, named, some_id, f, routed, bytes_beq_iff name [])),
        subst (Serves rep live (itoa id)) (sym e) s,
      )
