-- ===== src/Rpc/Subjects.antt =====
-- The subjects that a proxy publishes on, against the ones that its server listens on.
use newtbig.Prelude.{
  ◌≡◌, ◌≢◌, refl, sym, ◌∙◌, ap, Bool, [], ◌∷◌, ◌++◌, Option, some, arith, ◌==◌, bytes_eq,
  bytes_beq_iff, if◌then◌else◌, Bytes, ok, err, map, nat_eq,
}
use newtbig.Common.{Msg, broatcast, request, publish, send}
use newtbig.Options.{Options}
use newtbig.Strings.Split.{Without, Without-append}
use newtbig.Strings.FilePath.{IsPlain, path2, path3, base-path2, base-path3, dir-path3, slash}
use newtbig.Dispatcher.Proxy
use newtbig.Dispatcher.Proxy.{Proxy, dotted, underscored}
use newtbig.Dispatcher.{service_name}
use newtbig.Registry.{new_service}
use newtbig.Rpc.Nats.{
  init, handler, common_handler, broad_cast_handler, subject_unknown, to_session, to_all_sessions,
  to_callback,
}

-- A name that can stand in a registration key: a plain path element with no backslash.
abbrev pub IsName : Bytes → Type 0
IsName s = IsPlain s × Without 92 s

replace_backslash_whole : (s : Bytes) → Without 92 s → map (λ c. if c == 92 then b'/' else c) s ≡ s
replace_backslash_whole [] h = refl
replace_backslash_whole (c ∷ s) h = ground (arith, h.0, replace_backslash_whole s h.1)

pub service_name-path3 :
    (a b c : Bytes) → IsName a → IsName b → IsPlain c → service_name (path3 a b c) ≡ path2 a b
unfolding service_name
service_name-path3 a b c ha hb hc = rw (dir-path3 a b c ha.0 hb.0 hc) (
    replace_backslash_whole (path2 a b)
      (Without-append 92 a (slash ∷ b) ha.1 ((λ e. omega arith), hb.1)))

append_left_injective : (a b c : Bytes) → a ++ b ≡ a ++ c → b ≡ c
append_left_injective [] b c h = h
append_left_injective (x ∷ a) b c h = append_left_injective a b c (cc)

dot_is_no_underscore : (k : Bytes) → dotted k send ≢ underscored k send
dot_is_no_underscore k e = ground (arith, append_left_injective k _ _ e)

subjects_differ :
    (server : Options)
    → ((init server).bc_key ≢ (init server).pub_key)
      × (dotted (init server).key send ≢ (init server).pub_key)
      × (dotted (init server).key send ≢ (init server).bc_key)
unfolding init
subjects_differ server = (
  λ e. ground (arith, append_left_injective (init server).key _ _ e),
  λ e. ground (arith, append_left_injective (init server).key _ _ e),
  λ e. ground (arith, append_left_injective (init server).key _ _ e),
)

-- The options of a server whose names can stand in a key.
pub record IsNamed (o : Options) : Type 0 where
  pub app : IsName o.app_name
  pub kind : IsName o.server_type
  pub name : IsPlain o.server_name

-- The proxy that another server makes when it reads the server's registration.
abbrev pub proxy_of : Options → Options → Bytes → Proxy
proxy_of server viewer status =
    let key = (new_service server).key in Proxy.init (service_name key) key viewer status

module _ (server viewer : Options) (status : Bytes) (named : IsNamed server)
    (same : viewer.app_name ≡ server.app_name) where
  pub msg_key_agrees : (proxy_of server viewer status).msg_key ≡ (init server).key
  unfolding Proxy.init new_service init
  msg_key_agrees =
      let a = server.app_name in
      let b = server.server_type in
      let c = server.server_name in
      rw (
        service_name-path3 a b c named.app named.kind named.name,
        base-path2 a b named.app.0 named.kind.0,
        base-path3 a b c named.app.0 named.kind.0 named.name,
        same,
      )

  -- For a server whose names can stand in a key, and a viewer with the same AppName: the proxy that
  -- the viewer makes from the server's registration publishes, broadcasts and requests on the
  -- subjects that the server listens on, and its send subject is another one than the server's.
  pub subjects_agree :
      ((proxy_of server viewer status).pub_key ≡ (init server).pub_key)
      × ((proxy_of server viewer status).bc_key ≡ (init server).bc_key)
      × ((proxy_of server viewer status).req_key ≡ (init server).req_key)
      × ((proxy_of server viewer status).send_key ≢ (init server).send_key)
  subjects_agree = (
    unfold Proxy.init init in ap (λ k. dotted k publish) msg_key_agrees,
    unfold Proxy.init init in ap (λ k. dotted k broatcast) msg_key_agrees,
    unfold Proxy.init init in ap (λ k. underscored k request) msg_key_agrees,
    unfold Proxy.init init in
        λ e.
          dot_is_no_underscore (init server).key (sym (ap (λ k. dotted k send) msg_key_agrees) ∙ e),
  )

  -- For a server whose names can stand in a key, and a viewer with the same AppName and a codec
  -- that gives the message back: what the server's proxy publishes reaches the addressed session of
  -- a gate, or the callback of another server; what it broadcasts reaches every session of a gate,
  -- or the callback; what it sends by SendMsg is refused.
  pub handler_receives :
      (marshal : Msg → Bytes) (unmarshal : Bytes → Option Msg) (is_gate : Bool) (msg : Msg)
      → unmarshal (marshal msg) ≡ some msg
      → let p = proxy_of server viewer status in
        let received = λ (subject : Bytes).
          handler unmarshal (init server) is_gate subject (some (marshal msg)) in
        (received p.pub_key ≡ ok (if is_gate then to_session msg else to_callback msg))
        × (received p.bc_key ≡ ok (if is_gate then to_all_sessions msg else to_callback msg))
        × (received p.send_key ≡ err subject_unknown)
  handler_receives marshal unmarshal is_gate msg back =
      let (a, b, _, _) = subjects_agree in
      let c : (proxy_of server viewer status).send_key ≡ dotted (init server).key send =
        unfold Proxy.init in ap (λ k. dotted k send) msg_key_agrees in
      let d = subjects_differ server in
      (
        rw a (
            unfold handler common_handler in
            ground (arith, bytes_beq_iff (init server).pub_key (init server).pub_key)),
        rw b (
            unfold handler broad_cast_handler in
            ground (
              arith,
              d.0,
              bytes_beq_iff (init server).bc_key (init server).pub_key,
              bytes_beq_iff (init server).bc_key (init server).bc_key,
            )),
        rw c (
            unfold handler in
            ground (
              arith,
              d.1,
              d.2,
              bytes_beq_iff (dotted (init server).key send) (init server).pub_key,
              bytes_beq_iff (dotted (init server).key send) (init server).bc_key,
            )),
      )
