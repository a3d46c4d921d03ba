-- ===== src/Dispatcher/Invariant.antt =====
-- What a dispatcher keeps over every history of etcd events.
use newtbig.Prelude.{
  ◌≡◌, refl, sym, ◌∙◌, ap, subst, true, false, List, [], ◌∷◌, some, arith, ◌==◌, bytes_eq,
  bytes_beq_iff, Bytes, lookup, insert, lookup-insert, Bool-cases, Option-cases, inl, inr,
}
use newtbig.Options.{Options}
use newtbig.Strings.Split.{Without}
use newtbig.Strings.FilePath.{slash}
use newtbig.Ring.Interface.{SortedKeys}
use newtbig.Dispatcher.Proxy.{Proxy}
use newtbig.Dispatcher.Service
use newtbig.Dispatcher.Service.{Service}
use newtbig.Dispatcher.Service.Invariant.{
  IsService, init-IsService, create_proxy-IsService, lookup-create_proxy, create_proxy_frame,
  del_proxy-IsService, lookup-del_proxy, update-IsService,
}
use newtbig.Dispatcher.Configured.{IsConfigured, add_names-IsConfigured}
use newtbig.Dispatcher.{
  Dispatcher, Event, put, delete, init, service_name, register_in, service_or_new, is_excluded,
  type_of, add_service, remove_service, handle, watcher,
}

module _ {S : SortedKeys} where
  -- Every proxy of the service has a key in the service's directory.
  abbrev pub IsLocated : Bytes → Service S → Type 0
  IsLocated name ser =
      (k : Bytes) (p : Proxy) → lookup k ser.proxy_map ≡ some p → service_name k ≡ name

  pub record IsDispatcher (d : Dispatcher S) : Type 0 where
    pub sound : (name : Bytes) (ser : Service S) → lookup name d.services ≡ some ser → IsService ser
    pub located :
        (name : Bytes) (ser : Service S) → lookup name d.services ≡ some ser → IsLocated name ser
    pub fits :
        (name : Bytes) (ser : Service S)
        → lookup name d.services ≡ some ser
        → (ser.ser_type ≡ name) × (ser.opts ≡ d.opts)
    pub configured : IsConfigured d.names
    pub admitted :
        d.names_provided ≡ true
        → (name : Bytes) (ser : Service S) → lookup name d.services ≡ some ser
        → ¬ Without slash name
    pub nameless : d.my_name ≡ []

  pub init-IsDispatcher : (opts : Options) → IsDispatcher (init S opts)
  unfolding init lookup
  init-IsDispatcher opts = record {
    sound = λ name ser h. cc;
    located = λ name ser h. cc;
    fits = λ name ser h. cc;
    configured = add_names-IsConfigured opts.app_name opts.server_con_types [] (λ name t h. cc);
    admitted = λ given name ser h. cc;
    nameless = refl;
  }

  -- A registration keeps a service well formed.
  pub register_in-IsService :
      (ser : Service S) (key value : Bytes) → IsService ser → IsService (register_in ser key value)
  unfolding register_in Service.get_proxy
  register_in-IsService ser key value v = elim (Option-cases (lookup key ser.proxy_map)) [
    | inl e ↦ rw (e, register_in) (create_proxy-IsService ser key value v)
    | inr (p, e) ↦ rw (e, register_in) (update-IsService ser key value p e v)
  ]

  -- A registration changes neither the type nor the options of a service.
  register_in_frame :
      (ser : Service S) (key value : Bytes)
      → ((register_in ser key value).ser_type ≡ ser.ser_type)
        × ((register_in ser key value).opts ≡ ser.opts)
  unfolding register_in
  register_in_frame ser key value =
      let (t, o, n) = create_proxy_frame ser key value in (ground (arith, n), ground (arith, o))

  -- The other keys of the service are left as they were.
  pub register_in_others :
      (ser : Service S) (key value k : Bytes)
      → (key == k) ≡ false
      → lookup k (register_in ser key value).proxy_map ≡ lookup k ser.proxy_map
  unfolding register_in
  register_in_others ser key value k e = elim (Option-cases (Service.get_proxy ser key)) [
    | inl n ↦ rw (n, register_in) (rw lookup-create_proxy (rw e))
    | inr (p, n) ↦ rw (n, register_in) (rw lookup-insert (rw e))
  ]

  register_in-IsLocated :
      (ser : Service S) (key value : Bytes)
      → IsLocated (service_name key) ser
      → IsLocated (service_name key) (register_in ser key value)
  register_in-IsLocated ser key value l k p h = elim (Bool-cases (key == k)) [
    | inl e ↦ ap service_name (sym ((bytes_beq_iff key k).0 e))
    | inr e ↦ l k p (sym (register_in_others ser key value k e) ∙ h)
  ]

  -- What a dispatcher keeps for one of its services, at its name.
  abbrev Keeps : Dispatcher S → Bytes → Service S → Type 0
  Keeps d name ser =
      IsService ser
      × IsLocated name ser
      × (d.names_provided ≡ true → ¬ Without slash name)
      × ((ser.ser_type ≡ name) × (ser.opts ≡ d.opts))

  kept :
      (d : Dispatcher S)
      → IsDispatcher d
      → (name : Bytes) (ser : Service S) → lookup name d.services ≡ some ser
      → Keeps d name ser
  kept d v name ser h = (
    v.sound name ser h,
    v.located name ser h,
    λ given. v.admitted given name ser h,
    v.fits name ser h,
  )

  -- Writing one well-formed service keeps the dispatcher well formed.
  write-IsDispatcher :
      (d : Dispatcher S) (name : Bytes) (ser : Service S)
      → IsDispatcher d
      → Keeps d name ser
      → IsDispatcher (record d { services = insert name ser d.services })
  write-IsDispatcher d name ser v k = record {
    sound = λ n s h. (at n s h).0;
    located = λ n s h. (at n s h).1;
    fits = λ n s h. (at n s h).3;
    configured = v.configured;
    admitted = λ given n s h. (at n s h).2 given;
    nameless = v.nameless;
  }
    where
      at :
          (n : Bytes) (s : Service S) → lookup n (insert name ser d.services) ≡ some s → Keeps d n s
      at n s h = elim (Bool-cases (name == n)) [
        | inl e ↦
            subst (λ m. Keeps d m s) ((bytes_beq_iff name n).0 e)
              (subst (Keeps d name) (ground (arith, lookup-insert name n ser d.services)) k)
        | inr e ↦ kept d v n s (ground (arith, lookup-insert name n ser d.services))
      ]

  not_excluded_slashed :
      (d : Dispatcher S) (name : Bytes)
      → IsDispatcher d
      → is_excluded d name ≡ false
      → d.names_provided ≡ true
      → ¬ Without slash name
  not_excluded_slashed d name v e given = elim (Option-cases (lookup name d.names)) [
    | inl n ↦ absurd (ground arith)
    | inr (t, n) ↦ v.configured name t n
  ]

  new-IsLocated :
      (d : Dispatcher S) (name : Bytes)
      → IsLocated name (Service.init S name d.opts (type_of d name))
  unfolding Service.init lookup
  new-IsLocated d name k p h = cc

  del_proxy-IsLocated :
      (ser : Service S) (key : Bytes) {name : Bytes}
      → IsLocated name ser
      → IsLocated name (Service.del_proxy ser key)
  del_proxy-IsLocated ser key l k p h = l k p (ground (arith, lookup-del_proxy ser key k))

  service_or_new-Keeps :
      (d : Dispatcher S) (name : Bytes)
      → IsDispatcher d
      → is_excluded d name ≡ false
      → Keeps d name (service_or_new d name)
  service_or_new-Keeps d name v e = elim (Option-cases (lookup name d.services)) [
    | inr (ser, f) ↦ rw (f, service_or_new) (kept d v name ser f)
    | inl f ↦
        rw (f, service_or_new)
          (
            init-IsService name d.opts (type_of d name),
            new-IsLocated d name,
            not_excluded_slashed d name v e,
            unfold Service.init in (refl, refl),
          )
  ]

  remove_service-IsDispatcher :
      (d : Dispatcher S) (key : Bytes) → IsDispatcher d → IsDispatcher (remove_service d key).0
  unfolding remove_service
  remove_service-IsDispatcher d key v = elim (Bool-cases (is_excluded d (service_name key))) [
    | inl out ↦ rw (out, remove_service) v
    | inr within ↦ elim (Option-cases (lookup (service_name key) d.services)) [
      | inl f ↦ rw (within, f, remove_service) v
      | inr (ser, f) ↦
          let (s, l, n, f') = kept d v (service_name key) ser f in
          rw (within, f, remove_service)
            (write-IsDispatcher d (service_name key) _ v (
              del_proxy-IsService ser key s,
              del_proxy-IsLocated ser key l,
              n,
              unfold Service.del_proxy in f',
            ))
    ]
  ]

  -- Each event of etcd keeps the dispatcher well formed, whatever key it carries.
  pub handle-IsDispatcher :
      (d : Dispatcher S) (e : Event) → IsDispatcher d → IsDispatcher (handle d e)
  unfolding handle add_service
  handle-IsDispatcher d (put key value) v = elim (Bool-cases (is_excluded d (service_name key))) [
    | inl out ↦ rw out v
    | inr within ↦
        let name = service_name key in
        let (s, l, n, f) = service_or_new-Keeps d name v within in
        let (t, o) = register_in_frame (service_or_new d name) key value in
        rw within (
          write-IsDispatcher d name _ v (
            register_in-IsService _ key value s,
            register_in-IsLocated _ key value l,
            n,
            (t ∙ f.0, o ∙ f.1),
          ))
  ]
  handle-IsDispatcher d (delete key) v = remove_service-IsDispatcher d key v

  -- A well-formed dispatcher stays well formed over any history of etcd events, whatever keys they
  -- carry.
  pub watcher-IsDispatcher :
      (d : Dispatcher S) (events : List Event) → IsDispatcher d → IsDispatcher (watcher d events)
  unfolding watcher
  watcher-IsDispatcher d [] v = v
  watcher-IsDispatcher d (e ∷ events) v =
      watcher-IsDispatcher (handle d e) events (handle-IsDispatcher d e v)

  -- What no event writes.
  abbrev pub SameConfig : Dispatcher S → Dispatcher S → Type 0
  SameConfig a b =
      (a.names_provided ≡ b.names_provided)
      × (a.names ≡ b.names)
      × (a.g_key ≡ b.g_key)
      × (a.root ≡ b.root)
      × (a.route ≡ b.route)

  pub handle_frame : (d : Dispatcher S) (e : Event) → SameConfig (handle d e) d
  unfolding handle add_service remove_service
  handle_frame d (put key value) = ground arith
  handle_frame d (delete key) = ground arith

  pub watcher_frame : (d : Dispatcher S) (events : List Event) → SameConfig (watcher d events) d
  unfolding watcher
  watcher_frame d [] = (refl, refl, refl, refl, refl)
  watcher_frame d (e ∷ events) =
      let (a, b, c, x, y) = handle_frame d e in
      let (a', b', c', x', y') = watcher_frame (handle d e) events in
      (a' ∙ a, b' ∙ b, c' ∙ c, x' ∙ x, y' ∙ y)
