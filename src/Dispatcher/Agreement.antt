-- ===== src/Dispatcher/Agreement.antt =====
-- Routing by `GetProxy` after a history of etcd events: a matter of the keys that etcd holds alone.
use newtbig.Prelude.{
  ℕ, ◌≡◌, ◌≢◌, refl, ◌∙◌, subst, fun_ext, List, [], Option, some, arith, nat_eq, bytes_eq,
  bytes_beq_iff, Bytes, lookup, Option-cases, inl, inr, ok,
}
use newtbig.Common.{hash_route}
use newtbig.Options.{Options}
use newtbig.Strings.Decimal.{itoa}
use newtbig.Ring.Interface.{SortedKeys}
use newtbig.Ring.{HashRing}
use newtbig.Ring.Histories.{Members, nobody, Apart, Holds}
use newtbig.Ring.Agreement.{Serves, get_iff_Serves}
use newtbig.Dispatcher.Proxy.{Proxy}
use newtbig.Dispatcher.Service
use newtbig.Dispatcher.Service.{Service, is_hash, route_by_id, route_index, proxy_at}
use newtbig.Dispatcher.Service.Invariant.{IsService, Ringed}
use newtbig.Dispatcher.Service.Routing.{route_by_id-stored}
use newtbig.Dispatcher.Service.Tracking.{Tracks, IsFull}
use newtbig.Dispatcher.Invariant.{init-IsDispatcher, watcher-IsDispatcher}
use newtbig.Dispatcher.{Dispatcher, Event, init, type_of, service_or_new, watcher, get_proxy}
use newtbig.Dispatcher.Tracking.{
  alive, Named, TracksAt, init-TracksAt, watcher-TracksAt, seen_after, started, started_seen,
}

module _ {S : SortedKeys} (among : Members) (rep : ℕ) where
  -- The ring of a Hash service that tracks its keys holds their points.
  pub ring_of :
      (live : Members) (ser : Service S)
      → IsService ser
      → Tracks among rep live ser
      → (hr : HashRing S) → ser.hashring ≡ some hr
      → Holds among live rep hr
  ring_of live ser v t hr e =
      let (ring, same, over) =
        subst (λ r. Ringed ser.opts.dis_rep r ser.proxy_map) e (v.ringed t.hashed) in
      subst (λ p. Holds among p rep hr) (fun_ext (λ k. over k ∙ t.served k))
        (subst (IsFull among rep) e t.full)

  route_by_id-Serves :
      (live : Members) (ser : Service S) (id : ℕ) (p : Proxy)
      → IsService ser
      → Tracks among rep live ser
      → route_by_id ser id ≡ ok p
      → Serves rep live (itoa id) p.key
  route_by_id-Serves live ser id p v t r =
      let (hr, e, found, got) = route_by_id-stored ser v t.hashed id p r in
      (get_iff_Serves among live rep hr (ring_of live ser v t hr e) (itoa id) p.key).0 got

  -- A service with a count other than zero routes an id that one of its keys serves.
  pub route_by_id-of_Serves :
      (live : Members) (ser : Service S) (id : ℕ) (key : Bytes)
      → IsService ser
      → Tracks among rep live ser
      → ser.count ≢ 0
      → Serves rep live (itoa id) key
      → (p : Proxy) × (p.key ≡ key) × (route_by_id ser id ≡ ok p)
  unfolding route_by_id route_index proxy_at Service.get_proxy
  route_by_id-of_Serves live ser id key v t counted s = elim (Option-cases ser.hashring) [
    | inl e ↦ absurd (subst (IsFull among rep) e t.full)
    | inr (hr, e) ↦ elim (Option-cases (lookup key ser.proxy_map)) [
      | inl f ↦ absurd (ground (arith, t.served key, s.1.0))
      | inr (p, f) ↦
          let got =
            (get_iff_Serves among live rep hr (ring_of live ser v t hr e) (itoa id) key).1 s in
          (p, v.keyed key p f, ground (arith, got, f, e, t.hashed))
    ]
  ]

  -- The service of a dispatcher that tracks it.
  service_of :
      (name : Bytes) (live : Members) (d : Dispatcher S) (apart : Apart rep among)
      → TracksAt among rep apart name live d
      → (ser : Service S) → lookup name d.services ≡ some ser
      → Tracks among rep live ser
  service_of name live d apart t ser e =
      subst (Tracks among rep live) (rw (service_or_new, e) refl) t.tracks

  -- What GetProxy returns is what the service of that name routes.
  get_proxy_routes :
      (name : Bytes) (d : Dispatcher S) (id : ℕ) (p : Proxy)
      → get_proxy d name id ≡ ok p
      → (name ≢ [])
        × (id ≢ 0)
        × (ser : Service S) × (lookup name d.services ≡ some ser)
        × (route_by_id ser id ≡ ok p)
  unfolding get_proxy
  get_proxy_routes name d id p g = elim (Option-cases (lookup name d.services)) [
    | inl e ↦ absurd (ground arith)
    | inr (ser, e) ↦
        (λ n. ground (arith, n, bytes_beq_iff name []), ground arith, ser, e, ground arith)
  ]

-- A start with this replica number, and with the service configured as Hash.
abbrev pub Starts : SortedKeys → Options → ℕ → Bytes → Type 0
Starts S opts rep name = (opts.dis_rep ≡ rep) × (type_of (init S opts) name ≡ hash_route)

module _ (among : Members) (rep : ℕ) (apart : Apart rep among) (name : Bytes) where
  pub service_after :
      (S : SortedKeys) (opts : Options) (events : List Event)
      → Starts S opts rep name
      → Named name among events
      → (ser : Service S) → lookup name (watcher (init S opts) events).services ≡ some ser
      → IsService ser × Tracks among rep (alive name nobody events) ser
  service_after S opts events (e, t) w ser f = (
    (watcher-IsDispatcher (init S opts) events (init-IsDispatcher opts)).sound name ser f,
    service_of among rep name (alive name nobody events) (watcher (init S opts) events) apart
        (watcher-TracksAt among rep apart name nobody (init S opts) events w
          (init-TracksAt among rep apart name opts e t))
        ser f,
  )

  -- For a dispatcher with a service configured as Hash, after any start and any events whose keys
  -- in the service's directory lie in a set of keys that share no replica id: the key of the proxy
  -- that GetProxy returns is a key that is registered at the end, and has the first replica id from
  -- the hash of the id on, going round, among all registered keys.
  pub get_proxy-Serves :
      (S : SortedKeys) (opts : Options) (resp : Option (List (Bytes × Bytes))) (events : List Event)
      → Starts S opts rep name
      → Named name among (seen_after resp events)
      → (id : ℕ) (p : Proxy) → get_proxy (started S opts resp events) name id ≡ ok p
      → Serves rep (alive name nobody (seen_after resp events)) (itoa id) p.key
  get_proxy-Serves S opts resp events c w id p g =
      let seen = seen_after resp events in
      let (k, n, ser, f, r) =
        get_proxy_routes among rep name (watcher (init S opts) seen) id p
          (subst (λ d. get_proxy d name id ≡ ok p) (started_seen S opts resp events) g) in
      let (v, t) = service_after S opts seen c w ser f in
      route_by_id-Serves among rep (alive name nobody seen) ser id p v t r

  -- For two dispatchers with the same replica number and a service configured as Hash in both,
  -- whose registered keys in the service's directory are the same at the end and lie in a set of
  -- keys that share no replica id: where the first routes an id, the second, if its service is
  -- there with a count other than zero, routes it to a proxy of the same key. What each read at its
  -- start, and the order and number of the events that it saw, do not matter.
  pub dispatchers_agree :
      (S T : SortedKeys) (opts others : Options)
      → (resp answer : Option (List (Bytes × Bytes))) (events later : List Event)
      → Starts S opts rep name
      → Starts T others rep name
      → Named name among (seen_after resp events)
      → Named name among (seen_after answer later)
      → ((k : Bytes)
          → alive name nobody (seen_after resp events) k
            ≡ alive name nobody (seen_after answer later) k)
      → (id : ℕ) (p : Proxy) (ser : Service T)
      → get_proxy (started S opts resp events) name id ≡ ok p
      → lookup name (started T others answer later).services ≡ some ser
      → ser.count ≢ 0
      → (q : Proxy) × (q.key ≡ p.key) × (get_proxy (started T others answer later) name id ≡ ok q)
  unfolding get_proxy
  dispatchers_agree S T opts others resp answer events later c d w u same id p ser g f counted =
      let (k, n, old, at, r) =
        get_proxy_routes among rep name (started S opts resp events) id p g in
      let (v, t) =
        service_after T others (seen_after answer later) d u ser
          (subst (λ x. lookup name x.services ≡ some ser) (started_seen T others answer later) f) in
      let serves =
        subst (λ live. Serves rep live (itoa id) p.key) (fun_ext same)
          (get_proxy-Serves S opts resp events c w id p g) in
      let (q, e, routed) =
        route_by_id-of_Serves among rep (alive name nobody (seen_after answer later)) ser id p.key v
          t counted serves in
      (q, e, ground (arith, k, n, f, routed, bytes_beq_iff name []))
