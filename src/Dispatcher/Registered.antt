-- ===== src/Dispatcher/Registered.antt =====
-- The status of the proxy that a dispatcher routes to: the value that etcd holds for its key.
use newtbig.Prelude.{
  ℕ, ◌≡◌, refl, sym, ◌∙◌, ap, subst, false, List, ◌++◌, Option, none, some, nat_eq, bytes_eq, Bytes,
  lookup, ok,
}
use newtbig.Options.{Options}
use newtbig.Ring.Interface.{SortedKeys}
use newtbig.Ring.Histories.{Members, nobody, Apart}
use newtbig.Etcd.History.{IsHistory, Elsewhere, under, under-append, puts}
use newtbig.Etcd.Values.{
  last_value, last_value-append, last_value-Elsewhere, last_value-puts, or_else,
}
use newtbig.Dispatcher.Proxy.{Proxy}
use newtbig.Dispatcher.{Event, init, get_proxy, service_name, service_or_new, is_excluded, watcher}
use newtbig.Dispatcher.Invariant.{init-IsDispatcher, watcher-IsDispatcher}
use newtbig.Dispatcher.Routes.{get_proxy-lookup, routed_lookup}
use newtbig.Dispatcher.Tracking.{Named, started, started_seen, hash_admitted}
use newtbig.Dispatcher.Statuses.{status_in, status_of, statuses_follow}
use newtbig.Dispatcher.Discovery.{Reading, Discovers, discovers, watched_late, parts}

or_else-none : (v : Option Bytes) → or_else v none ≡ v
or_else-none none = refl
or_else-none (some b) = refl

module _ (S : SortedKeys) where
  -- Where a routed proxy stands.
  proxy_stored :
      (opts : Options) (events : List Event) (name : Bytes) (id : ℕ) (p : Proxy)
      → get_proxy (watcher (init S opts) events) name id ≡ ok p
      → (service_name p.key ≡ name)
        × (status_of (service_or_new (watcher (init S opts) events) name) p.key ≡ some p.ser_status)
  proxy_stored opts events name id p g =
      let d = watcher (init S opts) events in
      let v = watcher-IsDispatcher (init S opts) events (init-IsDispatcher opts) in
      let (ser, at, routed) = get_proxy-lookup d name id p g in
      let (k, found) = routed_lookup ser id p routed in
      let keyed = (v.sound name ser at).keyed k p found in
      (
        ap service_name keyed ∙ v.located name ser at k p found,
        rw (service_or_new, at)
            (ap status_in (subst (λ j. lookup j ser.proxy_map ≡ some p) (sym keyed) found)),
      )

module _ (root name : Bytes) (log : List Event) (r : Reading root name log) where
  -- What was read and watched gives the values in the end.
  last_value-seen :
      (k : Bytes)
      → service_name k ≡ name
      → last_value k none (puts r.kvs ++ under root r.late) ≡ last_value k none (under root log)
  last_value-seen k at =
      let early = under root r.early in
      let still = subst (λ n. Elsewhere n (under root r.between)) (sym at) r.still in
      let read =
        last_value-puts k none r.kvs r.unique ∙ or_else-none (lookup k r.kvs) ∙ r.listed k in
      let before =
        ap (last_value k none) (under-append root r.early r.between)
        ∙ last_value-append k none early (under root r.between)
        ∙ last_value-Elsewhere k (last_value k none early) (under root r.between) still in
      last_value-append k none (puts r.kvs) (under root r.late)
      ∙ ap (λ v. last_value k v (under root r.late)) (read ∙ sym before)
      ∙ sym (last_value-append k none (under root (r.early ++ r.between)) (under root r.late))
      ∙ ap (last_value k none) (sym (parts r))

module _ (root name : Bytes) (among : Members) (rep : ℕ) (apart : Apart rep among)
    (log : List Event) (named : Named name among (under root log))
    (history : IsHistory nobody (under root log)) where
  -- For a history of etcd that deletes a key only while it is held, and whose keys in the service's
  -- directory lie in a set of keys that share no replica id, and a dispatcher that configures the
  -- service as Hash, reads the keys at some point of the history when nothing more happens in the
  -- directory before the Get of its Watch, watches from there, and reads and sees fewer than 2 ^ 32
  -- keys and events: when GetProxy returns a proxy of the service, etcd holds its key in the end,
  -- and the proxy's status is the value that etcd holds for it.
  pub routed_registered :
      (S : SortedKeys) (opts : Options)
      (d : Discovers root name among rep apart log named history S opts)
      → (id : ℕ) (p : Proxy) → get_proxy (discovers S opts d.reading) name id ≡ ok p
      → last_value p.key none (under root log) ≡ some p.ser_status
  routed_registered S opts d id p g =
      let r = d.reading in
      let resp : Option (List (Bytes × Bytes)) = some r.kvs in
      let late = watched_late r opts d.rooted in
      let same : discovers S opts r ≡ watcher (init S opts) (puts r.kvs ++ under root r.late) =
        ap (started S opts resp) late ∙ started_seen S opts resp (under root r.late) in
      let (at, stored) =
        proxy_stored S opts (puts r.kvs ++ under root r.late) name id p
          (subst (λ x. get_proxy x name id ≡ ok p) same g) in
      let within = hash_admitted among rep apart (init S opts) name d.starts.1 in
      let follow =
        statuses_follow S opts resp (under root r.late) p.key
          (subst (λ n. is_excluded (init S opts) n ≡ false) (sym at) within) in
      sym (last_value-seen root name log r p.key at)
      ∙ sym follow
      ∙ ap (λ x. status_of (service_or_new x (service_name p.key)) p.key)
          (started_seen S opts resp (under root r.late))
      ∙ ap
          (λ n.
            status_of (service_or_new (watcher (init S opts) (puts r.kvs ++ under root r.late)) n)
              p.key)
          at
      ∙ stored
