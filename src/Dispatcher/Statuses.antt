-- ===== src/Dispatcher/Statuses.antt =====
-- The status of each server that a dispatcher knows: the one that was registered last.
use newtbig.Prelude.{
  ◌≡◌, refl, sym, ◌∙◌, ap, subst, false, List, [], ◌∷◌, Option, none, some, arith, nat_eq, ◌==◌,
  bytes_eq, bytes_beq_iff, Bytes, lookup, lookup-insert, Bool-cases, Option-cases, inl, inr,
}
use newtbig.Options.{Options}
use newtbig.Ring.Interface.{SortedKeys}
use newtbig.Dispatcher.Proxy
use newtbig.Dispatcher.Proxy.{Proxy}
use newtbig.Dispatcher.Service
use newtbig.Dispatcher.Service.{Service}
use newtbig.Dispatcher.Service.Invariant.{lookup-create_proxy, lookup-del_proxy}
use newtbig.Dispatcher.Invariant.{handle_frame}
use newtbig.Dispatcher.{
  Dispatcher, Event, put, delete, init, service_name, register_in, service_or_new, is_excluded,
  add_service, remove_service, handle, watcher,
}
use newtbig.Etcd.Values.{value_after, last_value, value_after_elsewhere}
use newtbig.Dispatcher.Tracking.{key_of, seen_after, started, started_seen}
use newtbig.Dispatcher.Counting.{service_or_new-put, service_or_new-other, service_or_new-write}

abbrev pub status_in : Option Proxy → Option Bytes
status_in none = none
status_in (some p) = some p.ser_status

module _ {S : SortedKeys} where
  -- The status that a service holds for a key.
  abbrev pub status_of : Service S → Bytes → Option Bytes
  status_of ser k = status_in (lookup k ser.proxy_map)

  register_in_status :
      (ser : Service S) (key value k : Bytes)
      → status_of (register_in ser key value) k ≡ value_after k (status_of ser k) (put key value)
  unfolding register_in value_after Service.get_proxy Proxy.update Proxy.init
  register_in_status ser key value k = elim (Option-cases (lookup key ser.proxy_map)) [
    | inl e ↦ rw (e, register_in) (rw lookup-create_proxy (ground arith))
    | inr (p, e) ↦
        rw (e, register_in)
          (ground (arith, lookup-insert key k (Proxy.update p value) ser.proxy_map))
  ]

  del_proxy_status :
      (ser : Service S) (key k : Bytes)
      → status_of (Service.del_proxy ser key) k ≡ value_after k (status_of ser k) (delete key)
  unfolding value_after
  del_proxy_status ser key k = rw lookup-del_proxy (ground arith)

  remove_service_status :
      (d : Dispatcher S) (key k : Bytes)
      → is_excluded d (service_name key) ≡ false
      → status_of (service_or_new (remove_service d key).0 (service_name key)) k
        ≡ value_after k (status_of (service_or_new d (service_name key)) k) (delete key)
  unfolding remove_service value_after Service.init lookup
  remove_service_status d key k within =
      elim (Option-cases (lookup (service_name key) d.services)) [
        | inl f ↦ rw (within, f, remove_service) (ground arith)
        | inr (ser, f) ↦
            let same : service_or_new d (service_name key) ≡ ser = rw (service_or_new, f) refl in
            rw (within, f, remove_service)
              (ap (λ s. status_of s k)
                  (service_or_new-write (service_name key) d (Service.del_proxy ser key))
                ∙ del_proxy_status ser key k
                ∙ ap (λ s. value_after k (status_of s k) (delete key)) (sym same))
      ]

  handle_status :
      (d : Dispatcher S) (e : Event) (k : Bytes)
      → is_excluded d (service_name k) ≡ false
      → status_of (service_or_new (handle d e) (service_name k)) k
        ≡ value_after k (status_of (service_or_new d (service_name k)) k) e
  unfolding handle
  handle_status d e k within = elim (Bool-cases (service_name (key_of e) == service_name k)) [
    | inr o ↦
        ap (λ s. status_of s k) (service_or_new-other (service_name k) d e o)
        ∙ sym (value_after_elsewhere k (status_of (service_or_new d (service_name k)) k) e o)
    | inl same ↦ at_key e ((bytes_beq_iff (service_name (key_of e)) (service_name k)).0 same)
  ]
    where
      at_key :
          (e : Event)
          → service_name (key_of e) ≡ service_name k
          → status_of (service_or_new (handle d e) (service_name k)) k
            ≡ value_after k (status_of (service_or_new d (service_name k)) k) e
      at_key (put key value) at =
          subst
            (λ n.
              status_of (service_or_new (add_service d key value) n) k
              ≡ value_after k (status_of (service_or_new d n) k) (put key value))
            at
            (ap (λ s. status_of s k)
                (service_or_new-put d key value
                  (subst (λ n. is_excluded d n ≡ false) (sym at) within))
              ∙ register_in_status (service_or_new d (service_name key)) key value k)
      at_key (delete key) at =
          subst
            (λ n.
              status_of (service_or_new (remove_service d key).0 n) k
              ≡ value_after k (status_of (service_or_new d n) k) (delete key))
            at
            (remove_service_status d key k (subst (λ n. is_excluded d n ≡ false) (sym at) within))

  excluded_after :
      (d : Dispatcher S) (e : Event) (name : Bytes)
      → is_excluded (handle d e) name ≡ is_excluded d name
  excluded_after d e name = let frame = handle_frame d e in ground (arith, frame.0, frame.1)

  watcher_status :
      (d : Dispatcher S) (events : List Event) (k : Bytes)
      → is_excluded d (service_name k) ≡ false
      → status_of (service_or_new (watcher d events) (service_name k)) k
        ≡ last_value k (status_of (service_or_new d (service_name k)) k) events
  unfolding watcher last_value
  watcher_status d [] k within = refl
  watcher_status d (e ∷ events) k within =
      watcher_status (handle d e) events k (excluded_after d e (service_name k) ∙ within)
      ∙ ap (λ v. last_value k v events) (handle_status d e k within)

-- For a dispatcher with any options, after any start and any events: it holds a status for a key
-- whose directory is not excluded exactly while the key is registered, and it is the one that was
-- registered last.
pub statuses_follow :
    (S : SortedKeys) (opts : Options) (resp : Option (List (Bytes × Bytes))) (events : List Event)
    → (k : Bytes) → is_excluded (init S opts) (service_name k) ≡ false
    → status_of (service_or_new (started S opts resp events) (service_name k)) k
      ≡ last_value k none (seen_after resp events)
unfolding init lookup Service.init
statuses_follow S opts resp events k within =
    rw (started_seen S opts resp events)
      (watcher_status (init S opts) (seen_after resp events) k within)
