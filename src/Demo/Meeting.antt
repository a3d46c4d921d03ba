-- ===== src/Demo/Meeting.antt =====
-- Where the login server sends a client, and where an application's replies to it go.
use newtbig.Prelude.{
  ℕ, ◌<◌, ◌≡◌, ◌≢◌, refl, sym, ◌∙◌, ap, subst, true, List, [], ◌∷◌, none, some, arith, nat_eq,
  bytes_eq, Bytes, codes, Option, Assoc, lookup, insert, ◌++◌, ok,
}
use newtbig.Common.{Msg}
use newtbig.Options.{Options}
use newtbig.Registry.{Registration}
use newtbig.Strings.Decimal.{Signed, atoi}
use newtbig.Strings.FilePath.{path2}
use newtbig.Ring.Interface.{SortedKeys}
use newtbig.Ring.Histories.{Members, nobody, Apart}
use newtbig.Etcd.History.{IsHistory, under, puts}
use newtbig.Common.Codes.{msg_kick_rst}
use newtbig.Dispatcher.Proxy
use newtbig.Dispatcher.Proxy.{Proxy}
use newtbig.Dispatcher.Service
use newtbig.Dispatcher.{
  Dispatcher, Event, put, delete, init, handle, watcher, get_proxy, get_gate, dispatch, start,
}
use newtbig.Dispatcher
use newtbig.Dispatcher.Invariant.{SameConfig, watcher_frame}
use newtbig.Dispatcher.Routes.{get_proxy-lookup}
use newtbig.Dispatcher.Tracking.{Named, started, seen_after, started_seen, watcher-connect_all}
use newtbig.Dispatcher.Discovery.{Reading, Discovers, discovers, takes, final, watchers_agree}
use newtbig.Etcd.Values.{last_value}
use newtbig.Dispatcher.Registered.{routed_registered}
use newtbig.Demo.Apps.{msg_login_rst, msg_start_rst, registe_app_routes, handle_login_req}
use newtbig.Demo.Login.{gate_page, handle_login, to_uint64}

init_gate :
    (S : SortedKeys) (opts : Options) (first : Bytes) (rest : List Bytes)
    → opts.server_con_types ≡ first ∷ rest
    → ((init S opts).names_provided ≡ true) × ((init S opts).g_key ≡ path2 opts.app_name first)
unfolding init
init_gate S opts first rest e = (rw e refl, rw e refl)

module _ {S : SortedKeys} where
  get_gate-proxy :
      (d : Dispatcher S) (name : Bytes) (id : ℕ) (p : Proxy)
      → d.names_provided ≡ true
      → d.g_key ≡ name
      → get_proxy d name id ≡ ok p
      → get_gate d id ≡ ok p.ser_status
  unfolding get_gate Dispatcher.get_server
  get_gate-proxy d name id p given key g =
      let here : get_proxy d d.g_key id ≡ ok p = subst (λ n. get_proxy d n id ≡ ok p) (sym key) g in
      ground (arith, given, here)

  -- Where a message's id has a route, it goes to the proxy that GetProxy finds for its key.
  dispatch-proxy :
      (d : Dispatcher S) (name kind : Bytes) (msg : Msg) (p : Proxy) (routes : Assoc ℕ Bytes)
      → d.route ≡ some routes
      → lookup msg.id routes ≡ some kind
      → path2 d.root kind ≡ name
      → get_proxy d name msg.key ≡ ok p
      → dispatch d (some msg) ≡ ok (Proxy.publish_on p msg)
  unfolding dispatch Dispatcher.get_service Dispatcher.get_msg_key Service.dispatch Service.route
  dispatch-proxy d name kind msg p routes r known path g =
      let (ser, at, routed) = get_proxy-lookup d name msg.key p g in
      let here : lookup (path2 d.root kind) d.services ≡ some ser =
        subst (λ n. lookup n d.services ≡ some ser) (sym path) at in
      ground (arith, r, known, here, routed)

  -- No event reads or writes the routes.
  handle-route :
      (d : Dispatcher S) (e : Event) (routes : Option (Assoc ℕ Bytes))
      → handle (record d { route = routes }) e ≡ record (handle d e) { route = routes }
  unfolding handle Dispatcher.add_service Dispatcher.remove_service
  handle-route d (put key value) routes = ground arith
  handle-route d (delete key) routes = ground arith

  watcher-route :
      (d : Dispatcher S) (events : List Event) (routes : Option (Assoc ℕ Bytes))
      → watcher (record d { route = routes }) events ≡ record (watcher d events) { route = routes }
  unfolding watcher
  watcher-route d [] routes = refl
  watcher-route d (e ∷ events) routes =
      ap (λ x. watcher x events) (handle-route d e routes)
      ∙ watcher-route (handle d e) events routes

-- A start and its events keep the configuration.
started_config :
    (S : SortedKeys) (opts : Options) (resp : Option (List (Bytes × Bytes))) (events : List Event)
    → SameConfig (started S opts resp events) (init S opts)
started_config S opts resp events =
    rw (started_seen S opts resp events) (watcher_frame (init S opts) (seen_after resp events))

path2-ne-nil : (a b : Bytes) → path2 a b ≢ []
path2-ne-nil [] b = λ e. cc e
path2-ne-nil (c ∷ a) b = λ e. cc e

abbrev app_routes : Assoc ℕ Bytes
app_routes =
    (msg_login_rst, codes "gate")
    ∷ (msg_start_rst, codes "gate")
    ∷ (msg_kick_rst, codes "gate")
    ∷ []

module _ (root : Bytes) (among : Members) (rep : ℕ) (apart : Apart rep among) (log : List Event)
    (named : Named (path2 root (codes "gate")) among (under root log))
    (history : IsHistory nobody (under root log)) where
  abbrev gates : Bytes
  gates = path2 root (codes "gate")

  -- The application's dispatcher: the routes are registered, the keys are read, and then it watches.
  abbrev pub app_discovers :
      (T : SortedKeys) (others : Options) → Reading root gates log → Dispatcher T
  app_discovers T others q =
      watcher (start (registe_app_routes (init T others)) (some q.kvs)) (takes q others.app_name)

  app_discovers-routes :
      (T : SortedKeys) (others : Options) (q : Reading root gates log)
      → app_discovers T others q ≡ record (discovers T others q) { route = some app_routes }
  unfolding registe_app_routes Dispatcher.registe_ser start insert started
  app_discovers-routes T others q =
      let events = takes q others.app_name in
      let with_routes : Dispatcher T → Dispatcher T = λ x. record x { route = some app_routes } in
      let d = with_routes (init T others) in
      let registered : registe_app_routes (init T others) ≡ d = unfold init in refl in
      ap (λ x. watcher (start x (some q.kvs)) events) registered
      ∙ watcher-connect_all d q.kvs events
      ∙ watcher-route (init T others) (puts q.kvs ++ events) (some app_routes)
      ∙ ap with_routes (sym (watcher-connect_all (init T others) q.kvs events))

  -- A reply to a login goes to the gate that GetProxy finds for its key.
  sent_by_app :
      (T : SortedKeys) (others : Options)
      → (q : Discovers root gates among rep apart log named history T others)
      → (p : Proxy) (rst : Msg) → get_proxy (discovers T others q.reading) gates rst.key ≡ ok p
      → rst.id ≡ msg_login_rst
      → dispatch (app_discovers T others q.reading) (some rst) ≡ ok (Proxy.publish_on p rst)
  unfolding init get_proxy
  sent_by_app T others q p rst g e =
      let r = q.reading in
      let events = takes r others.app_name in
      let config = started_config T others (some r.kvs) events in
      let d : Dispatcher T = record (discovers T others r) { route = some app_routes } in
      let known : lookup rst.id app_routes ≡ some (codes "gate") = rw e (unfold lookup in refl) in
      subst (λ x. dispatch x (some rst) ≡ ok (Proxy.publish_on p rst))
        (sym (app_discovers-routes T others r))
        (dispatch-proxy d gates (codes "gate") rst p app_routes refl known
          (ap (λ a. path2 a (codes "gate")) (config.3 ∙ q.rooted)) g)

  -- For a history of etcd that deletes a key only while it is held, and whose keys in the directory
  -- of `gate` lie in a set of keys that share no replica id; and a login server and an application
  -- that both configure `gate` as Hash with the same replica number, at least one, read the keys at
  -- some point of the history when nothing more happens in the directory before the Get of their
  -- Watch, watch from there, and read and see fewer than 2 ^ 32 keys and events, where the first
  -- name that the login server configures is `gate`: if etcd holds a gate's key in the end, then
  -- for a user id other than zero the page that HandleLogin writes is made of the status that etcd
  -- holds for a gate's key, and the reply that HandleLoginReq makes to a login of that user is
  -- published to a proxy of that key.
  pub login_meets_replies :
      (fprintf : Bytes → Bytes) (unmarshal : Bytes → Option Registration)
      → (S T : SortedKeys) (opts others : Options)
      → (r : Discovers root gates among rep apart log named history S opts)
      → (q : Discovers root gates among rep apart log named history T others) → (rest : List Bytes)
      → opts.server_con_types ≡ codes "gate" ∷ rest
      → 0 < rep
      → (key : Bytes) → final root gates among rep apart log named history key ≡ true
      → (uid_s : Bytes) (uid : Signed) → atoi uid_s ≡ some uid
      → (req : Msg) → req.uid ≡ to_uint64 uid
      → to_uint64 uid ≢ 0
      → let rst = (handle_login_req req).0 in
        (p : Proxy) × (p' : Proxy) × (p.key ≡ p'.key)
        × (last_value p.key none (under root log) ≡ some p.ser_status)
        × (handle_login fprintf unmarshal (discovers S opts r.reading) (some (uid_s ∷ []))
            ≡ gate_page fprintf unmarshal p.ser_status)
        × (dispatch (app_discovers T others q.reading) (some rst) ≡ ok (Proxy.publish_on p' rst))
  unfolding handle_login handle_login_req
  login_meets_replies fprintf unmarshal S T opts others r q rest first replicas key there uid_s uid
        read req same some_id =
      let rst = (handle_login_req req).0 in
      let (p, p', g, g', keys) =
        watchers_agree root gates among rep apart log named history S T opts others r q replicas
          (path2-ne-nil root (codes "gate")) key there (to_uint64 uid) some_id in
      let g'' =
        subst (λ n. get_proxy (discovers T others q.reading) gates n ≡ ok p') (sym same) g' in
      let events = takes r.reading opts.app_name in
      let config = started_config S opts (some r.reading.kvs) events in
      let (given, gate) = init_gate S opts (codes "gate") rest first in
      let found =
        get_gate-proxy (discovers S opts r.reading) gates (to_uint64 uid) p (config.0 ∙ given)
          (config.2 ∙ gate ∙ ap (λ a. path2 a (codes "gate")) r.rooted) g in
      let status =
        routed_registered root gates among rep apart log named history S opts r (to_uint64 uid) p
          g in
      (p, p', keys, status, ground (arith, read, found), sent_by_app T others q p' rst g'' refl)
