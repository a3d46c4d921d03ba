-- ===== src/Rpc/Delivery.antt =====
-- A message from one server to another, end to end: the sender's dispatcher and client, and the
-- receiver's handlers.
use newtbig.Prelude.{
  ℕ, ◌≡◌, sym, ◌∙◌, ap, Bool, true, Option, some, arith, nat_eq, bytes_eq, if◌then◌else◌, Bytes,
  lookup, ok, Result-cases, inl, inr,
}
use newtbig.Common.{Msg}
use newtbig.Options.{Options}
use newtbig.Process.{Processor, Outcome, dispose, returned, handle_msg, settle}
use newtbig.Strings.FilePath.{path2}
use newtbig.Registry.{new_service}
use newtbig.Ring.Interface.{SortedKeys}
use newtbig.Dispatcher.Proxy
use newtbig.Dispatcher.Proxy.{Proxy, RpcCall}
use newtbig.Dispatcher.Service
use newtbig.Dispatcher.Service.{Service, route_by_id, route_index, proxy_at}
use newtbig.Dispatcher.{Dispatcher, get_service, service_name}
use newtbig.Dispatcher
use newtbig.Dispatcher.Invariant.{IsDispatcher}
use newtbig.Rpc.Nats
use newtbig.Rpc.Nats.{init, to_session, to_callback}
use newtbig.Rpc.Subjects.{IsNamed, proxy_of, subjects_agree, handler_receives}
use newtbig.Rpc.Handlers.{on_request, reply_to}
use newtbig.Rpc.Client.{Client, publish_msg, request_msg}
use newtbig.Rpc.Facade.{Wire, carry, call, call_nr, published, answered}

-- A routed proxy stands in the service, under some key.
route_by_id_found :
    {S : SortedKeys} (ser : Service S) (id : ℕ) (p : Proxy)
    → route_by_id ser id ≡ ok p
    → (k : Bytes) × (lookup k ser.proxy_map ≡ some p)
unfolding route_by_id proxy_at Service.get_proxy
route_by_id_found ser id p r = elim (Result-cases (route_index ser id)) [
  | inl (k, e) ↦ (k, ground arith)
  | inr (x, e) ↦ absurd (ground arith)
]

-- The service of a message stands in the dispatcher, under some name.
get_service_found :
    {S : SortedKeys} (d : Dispatcher S) (msg : Msg) (ser : Service S)
    → get_service d (some msg) ≡ ok ser
    → (name : Bytes) × (lookup name d.services ≡ some ser)
unfolding get_service
get_service_found d msg ser g = elim (Result-cases (Dispatcher.get_msg_key d msg.id)) [
  | inl (k, e) ↦ (path2 d.root k, ground arith)
  | inr (x, e) ↦ absurd (ground arith)
]

-- What a registered handler returns is the reply to a request.
reply :
    (marshal : Msg → Bytes) (unmarshal : Bytes → Option Msg) (elapsed : ℕ) (p : Processor)
    (msg rst : Msg) (f : Msg → Outcome)
    → unmarshal (marshal msg) ≡ some msg
    → lookup msg.id p.msg_infos ≡ some (dispose f)
    → f msg ≡ returned (some rst)
    → (on_request (λ m. some (marshal m)) unmarshal elapsed p (some (marshal msg))).1
      ≡ some (marshal rst)
unfolding on_request handle_msg settle reply_to
reply marshal unmarshal elapsed p msg rst f back registered handled =
    ground (arith, back, registered, handled)

module _ {S : SortedKeys} (d : Dispatcher S) (v : IsDispatcher d) (server : Options) where
  -- The dispatcher routes a message to a server, by the key of its registration.
  pub record RoutesTo (msg : Msg) : Type 0 where
    pub ser : Service S
    pub proxy : Proxy
    pub service : get_service d (some msg) ≡ ok ser
    pub routed : route_by_id ser msg.key ≡ ok proxy
    pub registered : proxy.key ≡ (new_service server).key

  -- The proxy is the one that the server's registration makes.
  RoutesTo-proxy :
      (msg : Msg) (r : RoutesTo msg) → r.proxy ≡ proxy_of server d.opts r.proxy.ser_status
  RoutesTo-proxy msg r =
      let (name, at) = get_service_found d msg r.ser r.service in
      let (k, found) = route_by_id_found r.ser msg.key r.proxy r.routed in
      let keyed = (v.sound name r.ser at).keyed k r.proxy found in
      let built = (v.sound name r.ser at).built k r.proxy found in
      let (typed, opts) = v.fits name r.ser at in
      let located = v.located name r.ser at k r.proxy found in
      built
      ∙ ap (λ n. Proxy.init n k r.ser.opts r.proxy.ser_status) (typed ∙ sym located)
      ∙ ap (λ o. Proxy.init (service_name k) k o r.proxy.ser_status) opts
      ∙ ap (λ key. Proxy.init (service_name key) key d.opts r.proxy.ser_status)
          (sym keyed ∙ r.registered)

  module _ (named : IsNamed server) (same : d.opts.app_name ≡ server.app_name)
      (marshal : Msg → Bytes) (unmarshal : Bytes → Option Msg)
      (back : (m : Msg) → unmarshal (marshal m) ≡ some m) (wire : Wire) (client : Client) where
    -- For a well-formed dispatcher with the server's AppName that routes a message to a server
    -- whose names can stand in a key, a codec that gives messages back, and a connection that takes
    -- every message: CallNR publishes the message on a subject on which the server's handler passes
    -- the same message to the addressed session, if it is a gate, or else to the callback.
    pub call_nr_delivers :
        (is_gate : Bool) (msg : Msg)
        → RoutesTo msg
        → ((subj body : Bytes) → wire.publishes subj body ≡ true)
        → (subj : Bytes) × (body : Bytes) × (call_nr
              (λ m. some (marshal m))
              unmarshal
              wire
              client
              d
              msg
            ≡ ok (published subj body))
          × (Nats.handler unmarshal (init server) is_gate subj (some body)
              ≡ ok (if is_gate then to_session msg else to_callback msg))
    unfolding call_nr Dispatcher.dispatch Service.dispatch Proxy.publish_on carry publish_msg
        Service.route
    call_nr_delivers is_gate msg r takes =
        let made = RoutesTo-proxy msg r in
        let received =
          (handler_receives server d.opts r.proxy.ser_status named same marshal unmarshal is_gate
            msg (back msg)).0 in
        (
          r.proxy.pub_key,
          marshal msg,
          ground (arith, r.service, r.routed, takes r.proxy.pub_key (marshal msg)),
          rw (ap (λ p. p.pub_key) made) received,
        )

    -- For a well-formed dispatcher with the server's AppName that routes a message to a server
    -- whose names can stand in a key, a codec that gives messages back, and a network that carries
    -- requests on the server's request subject to its request handler: when the server has a
    -- handler for the message's id that returns a reply, Call returns that reply.
    pub call_answered :
        (elapsed : ℕ) (p : Processor) (msg rst : Msg) (f : Msg → Outcome)
        → RoutesTo msg
        → ((body : Bytes)
            → wire.answers (init server).req_key body
              ≡ (on_request (λ m. some (marshal m)) unmarshal elapsed p (some body)).1)
        → lookup msg.id p.msg_infos ≡ some (dispose f)
        → f msg ≡ returned (some rst)
        → call (λ m. some (marshal m)) unmarshal wire client d msg ≡ ok (answered rst)
    unfolding call Dispatcher.request Service.request Proxy.request_on carry request_msg
        Service.route
    call_answered elapsed p msg rst f r network registered handled =
        let made = RoutesTo-proxy msg r in
        let subject : r.proxy.req_key ≡ (init server).req_key =
          ap (λ q. q.req_key) made
          ∙ (subjects_agree server d.opts r.proxy.ser_status named same).2 in
        let replied = reply marshal unmarshal elapsed p msg rst f (back msg) registered handled in
        ground (arith, r.service, r.routed, subject, network (marshal msg), replied, back rst)
