-- ===== src/Dispatcher/Service/Invariant.antt =====
-- What every service keeps: proxies under their own keys, and a ring over exactly these keys.
use newtbig.Prelude.{
  ℕ, ◌≡◌, refl, sym, ◌∙◌, ap, true, Option, none, some, arith, ◌==◌, bytes_eq, bytes_beq_iff,
  if◌then◌else◌, Bytes, Assoc, lookup, insert, lookup-insert, lookup-erase, is_some, IsUnique,
  insert-IsUnique, erase-IsUnique,
}
use newtbig.Common.{RouteType}
use newtbig.Options.{Options}
use newtbig.Ring.Interface.{SortedKeys}
use newtbig.Ring.{HashRing, new_hash_ring, has_member}
use newtbig.Ring
use newtbig.Ring.Points.{add_members, add_rep, remove_members, remove_rep}
use newtbig.Ring.Invariant.{IsRing, new_hash_ring-IsRing, add-IsRing, remove-IsRing}
use newtbig.Strings.FilePath.{base}
use newtbig.Dispatcher.Proxy
use newtbig.Dispatcher.Proxy.{Proxy}
use newtbig.Dispatcher.Service.{Service, is_hash, init, add_proxy, del_proxy, create_proxy}

module _ {S : SortedKeys} where
  -- A ring is there, well formed, with the given replica number and one member for each key.
  abbrev pub Ringed : ℕ → Option (HashRing S) → Assoc Bytes Proxy → Type 0
  Ringed rep none m = ⊥
  Ringed rep (some hr) m =
      IsRing hr × (hr.rep ≡ rep) × ((k : Bytes) → has_member hr k ≡ is_some (lookup k m))

  pub record IsService (s : Service S) : Type 0 where
    pub unique : IsUnique s.proxy_map
    pub keyed : (k : Bytes) (p : Proxy) → lookup k s.proxy_map ≡ some p → p.key ≡ k
    pub named : (k : Bytes) (p : Proxy) → lookup k s.proxy_map ≡ some p → p.ser_name ≡ base k
    pub built :
        (k : Bytes) (p : Proxy)
        → lookup k s.proxy_map ≡ some p
        → p ≡ Proxy.init s.ser_type k s.opts p.ser_status
    pub ringed : is_hash s.route_type ≡ true → Ringed s.opts.dis_rep s.hashring s.proxy_map

  -- A service starts well formed, with no proxy.
  pub init-IsService :
      (ser_type : Bytes) (opts : Options) (t : RouteType) → IsService (init S ser_type opts t)
  unfolding init lookup has_member new_hash_ring
  init-IsService ser_type opts t = record {
    unique = tt;
    keyed = λ k p h. cc;
    named = λ k p h. cc;
    built = λ k p h. cc;
    ringed = λ h. rw h (new_hash_ring-IsRing S opts.dis_rep opts.dis_len, refl, λ k. refl);
  }

  -- The proxy that stands under `key` after CreateProxy.
  abbrev pub stored : Service S → Bytes → Bytes → Proxy
  stored s key value = elim (lookup key s.proxy_map) [
    | none ↦ Proxy.init s.ser_type key s.opts value
    | some old ↦ old
  ]

  -- The ring after CreateProxy and after DelProxy.
  abbrev pub ring_after : (HashRing S → HashRing S) → Service S → Option (HashRing S)
  ring_after f s =
      if is_hash s.route_type
      then elim s.hashring [ none ↦ none | some hr ↦ some (f hr) ]
      else s.hashring

  module _ (s : Service S) (key value : Bytes) where
    pub lookup-create_proxy :
        (k : Bytes)
        → lookup k (create_proxy s key value).0.proxy_map
          ≡ (if key == k then some (stored s key value) else lookup k s.proxy_map)
    unfolding create_proxy add_proxy Proxy.init
    lookup-create_proxy k = ground (
      arith,
      bytes_beq_iff key k,
      lookup-insert key k (Proxy.init s.ser_type key s.opts value) s.proxy_map,
    )

    pub create_proxy_ring :
        (create_proxy s key value).0.hashring ≡ ring_after (λ hr. (Ring.add hr key).0) s
    unfolding create_proxy add_proxy Proxy.init
    create_proxy_ring = ground arith

    pub create_proxy_frame :
        ((create_proxy s key value).0.route_type ≡ s.route_type)
        × ((create_proxy s key value).0.opts ≡ s.opts)
        × ((create_proxy s key value).0.ser_type ≡ s.ser_type)
    unfolding create_proxy add_proxy
    create_proxy_frame = ground arith

    create_proxy-IsUnique : IsUnique s.proxy_map → IsUnique (create_proxy s key value).0.proxy_map
    unfolding create_proxy add_proxy Proxy.init
    create_proxy-IsUnique u =
        ground (arith, insert-IsUnique key (Proxy.init s.ser_type key s.opts value) s.proxy_map u)

  module _ (s : Service S) (key : Bytes) where
    pub lookup-del_proxy :
        (k : Bytes)
        → lookup k (del_proxy s key).proxy_map ≡ (if key == k then none else lookup k s.proxy_map)
    unfolding del_proxy
    lookup-del_proxy k = lookup-erase key k s.proxy_map

    pub del_proxy_ring : (del_proxy s key).hashring ≡ ring_after (λ hr. Ring.remove hr key) s
    unfolding del_proxy
    del_proxy_ring = refl

  -- A ring follows the proxies when a key is added to both, or taken from both.
  Ringed-add :
      (rep : ℕ) (r : Option (HashRing S)) (m n : Assoc Bytes Proxy) (key : Bytes) (p : Proxy)
      → ((k : Bytes) → lookup k n ≡ (if key == k then some p else lookup k m))
      → Ringed rep r m
      → Ringed rep (elim r [ none ↦ none | some hr ↦ some (Ring.add hr key).0 ]) n
  unfolding has_member
  Ringed-add rep none m n key p e h = h
  Ringed-add rep (some hr) m n key p e h = (
    add-IsRing hr key h.0,
    add_rep hr key ∙ h.1,
    λ k. rw (add_members hr key k, e k) (ground (arith, h.2 k)),
  )

  Ringed-remove :
      (rep : ℕ) (r : Option (HashRing S)) (m n : Assoc Bytes Proxy) (key : Bytes)
      → ((k : Bytes) → lookup k n ≡ (if key == k then none else lookup k m))
      → Ringed rep r m
      → Ringed rep (elim r [ none ↦ none | some hr ↦ some (Ring.remove hr key) ]) n
  unfolding has_member
  Ringed-remove rep none m n key e h = h
  Ringed-remove rep (some hr) m n key e h = (
    remove-IsRing hr key h.0,
    remove_rep hr key ∙ h.1,
    λ k. rw (remove_members hr key k, e k) (ground (arith, h.2 k)),
  )

  -- CreateProxy keeps a service well formed, for a key that is new and for one that is there.
  pub create_proxy-IsService :
      (s : Service S) (key value : Bytes) → IsService s → IsService (create_proxy s key value).0
  create_proxy-IsService s key value v = record {
    unique = create_proxy-IsUnique s key value v.unique;
    keyed = λ k p h. ground (
      arith,
      lookup-create_proxy s key value k,
      v.keyed k p,
      v.keyed key p,
      bytes_beq_iff key k,
      fresh_key,
    );
    named = λ k p h. ground (
      arith,
      lookup-create_proxy s key value k,
      v.named k p,
      v.named key p,
      bytes_beq_iff key k,
      fresh_name,
    );
    built = λ k p h.
        let (t, o, n) = create_proxy_frame s key value in
        rw (o, n)
          (ground (
            arith,
            lookup-create_proxy s key value k,
            v.built k p,
            v.built key p,
            bytes_beq_iff key k,
            fresh_built,
          ));
    ringed = λ h.
        let f = create_proxy_frame s key value in
        rw (f.1, create_proxy_ring s key value) (ring_part (sym (ap is_hash f.0) ∙ h));
  }
    where
      fresh_key : (Proxy.init s.ser_type key s.opts value).key ≡ key
      fresh_key = unfold Proxy.init in refl

      fresh_name : (Proxy.init s.ser_type key s.opts value).ser_name ≡ base key
      fresh_name = unfold Proxy.init in refl

      fresh_built :
          Proxy.init s.ser_type key s.opts value
          ≡ Proxy.init s.ser_type key s.opts (Proxy.init s.ser_type key s.opts value).ser_status
      fresh_built = unfold Proxy.init in refl

      ring_part :
          is_hash s.route_type ≡ true
          → Ringed s.opts.dis_rep
              (ring_after (λ hr. (Ring.add hr key).0) s)
              (create_proxy s key value).0.proxy_map
      ring_part h = rw h (
          Ringed-add s.opts.dis_rep s.hashring s.proxy_map _ key (stored s key value)
            (lookup-create_proxy s key value) (v.ringed h))

  -- DelProxy keeps a service well formed, which says nothing of its count.
  pub del_proxy-IsService :
      (s : Service S) (key : Bytes) → IsService s → IsService (del_proxy s key)
  del_proxy-IsService s key v = record {
    unique = unfold del_proxy in erase-IsUnique key s.proxy_map v.unique;
    keyed = λ k p h. ground (arith, lookup-del_proxy s key k, v.keyed k p);
    named = λ k p h. ground (arith, lookup-del_proxy s key k, v.named k p);
    built =
        unfold del_proxy in λ k p h. ground (arith, lookup-erase key k s.proxy_map, v.built k p);
    ringed = ring_part;
  }
    where
      ring_part :
          is_hash (del_proxy s key).route_type ≡ true
          → Ringed
              (del_proxy s key).opts.dis_rep
              (del_proxy s key).hashring
              (del_proxy s key).proxy_map
      ring_part =
          unfold del_proxy in
          λ h. rw h (
            Ringed-remove s.opts.dis_rep s.hashring s.proxy_map _ key (lookup-del_proxy s key)
              (v.ringed h))

  -- A new status for a stored proxy keeps a service well formed.
  pub update-IsService :
      (s : Service S) (key value : Bytes) (p : Proxy)
      → lookup key s.proxy_map ≡ some p
      → IsService s
      → IsService (record s { proxy_map = insert key (Proxy.update p value) s.proxy_map })
  unfolding Proxy.update
  update-IsService s key value p e v = record {
    unique = insert-IsUnique key _ s.proxy_map v.unique;
    keyed = λ k q h. ground (
      arith,
      lookup-insert key k (Proxy.update p value) s.proxy_map,
      v.keyed k q,
      v.keyed key p e,
      bytes_beq_iff key k,
    );
    named = λ k q h. ground (
      arith,
      lookup-insert key k (Proxy.update p value) s.proxy_map,
      v.named k q,
      v.named key p e,
      bytes_beq_iff key k,
    );
    built = λ k q h. ground (
      arith,
      lookup-insert key k (Proxy.update p value) s.proxy_map,
      v.built k q,
      renewed,
      bytes_beq_iff key k,
    );
    ringed = λ h. over s.hashring (v.ringed h);
  }
    where
      renewed : Proxy.update p value ≡ Proxy.init s.ser_type key s.opts value
      renewed = unfold Proxy.init in ap (λ q. Proxy.update q value) (v.built key p e)

      over :
          (r : Option (HashRing S))
          → Ringed s.opts.dis_rep r s.proxy_map
          → Ringed s.opts.dis_rep r (insert key (Proxy.update p value) s.proxy_map)
      over none h = h
      over (some hr) h = (
        h.0,
        h.1,
        λ k. ground (
          arith,
          h.2 k,
          lookup-insert key k (Proxy.update p value) s.proxy_map,
          bytes_beq_iff key k,
        ),
      )
