-- ===== src/Dispatcher/Routes.antt =====
-- What the dispatcher's queries answer after a start and any history of etcd events.
use newtbig.Prelude.{
  ℕ, ◌≡◌, ◌≢◌, ◌∙◌, subst, true, false, List, some, arith, bytes_eq, bytes_beq_iff, nat_eq, Bytes,
  lookup, Option-cases, inl, inr, ok, Result-cases,
}
use newtbig.Options.{Options}
use newtbig.Strings.Split.{Without}
use newtbig.Strings.FilePath.{slash, dir_whole}
use newtbig.Strings.FilePath.Nonempty.{base-ne-nil}
use newtbig.Ring.Interface.{SortedKeys}
use newtbig.Dispatcher.Proxy.{Proxy}
use newtbig.Dispatcher.Service
use newtbig.Dispatcher.Service.{Service, is_hash, route_by_id, proxy_at}
use newtbig.Dispatcher.Service.Routing.{direct_never_routes}
use newtbig.Dispatcher.{Dispatcher, Event, init, service_name, get_proxy, check_route, watcher}
use newtbig.Dispatcher.Invariant.{init-IsDispatcher, watcher-IsDispatcher, watcher_frame}

module _ {S : SortedKeys} where
  pub routed_lookup :
      (s : Service S) (id : ℕ) (p : Proxy)
      → route_by_id s id ≡ ok p
      → (k : Bytes) × (lookup k s.proxy_map ≡ some p)
  unfolding route_by_id proxy_at Service.get_proxy
  routed_lookup s id p h = elim (Result-cases (Service.route_index s id)) [
    | inl (k, e) ↦ (k, ground arith)
    | inr (x, e) ↦ absurd (ground arith)
  ]

  pub get_proxy-lookup :
      (d : Dispatcher S) (kind : Bytes) (id : ℕ) (p : Proxy)
      → get_proxy d kind id ≡ ok p
      → (ser : Service S) × (lookup kind d.services ≡ some ser) × (route_by_id ser id ≡ ok p)
  unfolding get_proxy
  get_proxy-lookup d kind id p h = elim (Option-cases (lookup kind d.services)) [
    | inl e ↦ absurd (ground arith)
    | inr (ser, e) ↦ elim (Result-cases (route_by_id ser id)) [
      | inl (q, f) ↦ (ser, e, ground arith)
      | inr (x, f) ↦ absurd (ground arith)
    ]
  ]

slashless_name : (k : Bytes) → Without slash k → Without slash (service_name k)
unfolding service_name
slashless_name k h = rw (dir_whole k h) (omega arith)

module _ (S : SortedKeys) where
  -- After the start with any options and any history of etcd events, CheckRoute answers false for
  -- every id: `myName` is not set, and no proxy has an empty name.
  pub check_route_never :
      (opts : Options) (events : List Event) (id : ℕ)
      → check_route (watcher (init S opts) events) id ≡ false
  unfolding check_route
  check_route_never opts events id =
      let d = watcher (init S opts) events in
      let v = watcher-IsDispatcher (init S opts) events (init-IsDispatcher opts) in
      elim (Result-cases (get_proxy d d.my_type id)) [
        | inr (x, e) ↦ ground arith
        | inl (p, e) ↦
            let (ser, f, r) = get_proxy-lookup d d.my_type id p e in
            let (k, found) = routed_lookup ser id p r in
            let named = (v.sound d.my_type ser f).named k p found in
            ground (arith, v.nameless, named, base-ne-nil k, bytes_beq_iff d.my_name p.ser_name)
      ]

  -- With a configured list of names, after any history of etcd events, a service of any type but
  -- Hash routes no id: it looks for `route_<id>`, and the keys of its proxies hold a slash.
  pub direct_service_never_routes :
      (opts : Options) (events : List Event) (name : Bytes) (ser : Service S) (id : ℕ) (p : Proxy)
      → (init S opts).names_provided ≡ true
      → lookup name (watcher (init S opts) events).services ≡ some ser
      → is_hash ser.route_type ≡ false
      → route_by_id ser id ≢ ok p
  direct_service_never_routes opts events name ser id p given f direct =
      let d = watcher (init S opts) events in
      let v = watcher-IsDispatcher (init S opts) events (init-IsDispatcher opts) in
      direct_never_routes ser id direct
        (λ k q found w.
          v.admitted ((watcher_frame (init S opts) events).0 ∙ given) name ser f
            (subst (Without slash) (v.located name ser f k q found) (slashless_name k w)))
        p
