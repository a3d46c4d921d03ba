-- ===== src/Dispatcher/Service/Tracking.antt =====
-- A Hash service against the set of its keys: its proxies are theirs, and its ring holds their
-- points and no others.
use newtbig.Prelude.{
  ℕ, ◌≡◌, refl, sym, ◌∙◌, ap, subst, fun_ext, true, Option, none, some, arith, nat_eq, bytes_eq,
  Bytes, lookup, insert, lookup-insert, is_some, Option-cases, inl, inr,
}
use newtbig.Common.{hash_route}
use newtbig.Options.{Options}
use newtbig.Ring.Interface.{SortedKeys}
use newtbig.Ring.{HashRing, has_member}
use newtbig.Ring
use newtbig.Ring.Histories.{
  Members, Change, join, leave, alter, nobody, Apart, Holds, change-Holds, new_hash_ring-Holds,
  change,
}
use newtbig.Dispatcher.Proxy.{Proxy}
use newtbig.Dispatcher.Service
use newtbig.Dispatcher.Service.{Service, is_hash}
use newtbig.Dispatcher.Service.Invariant.{
  lookup-create_proxy, create_proxy_ring, create_proxy_frame, lookup-del_proxy, del_proxy_ring,
}
use newtbig.Dispatcher.{register_in}

module _ {S : SortedKeys} (among : Members) (rep : ℕ) where
  -- A ring that holds the points of its members, and no others.
  abbrev pub IsFull : Option (HashRing S) → Type 0
  IsFull none = ⊥
  IsFull (some hr) = Holds among (has_member hr) rep hr

  pub record Tracks (live : Members) (ser : Service S) : Type 0 where
    pub served : (k : Bytes) → is_some (lookup k ser.proxy_map) ≡ live k
    pub hashed : is_hash ser.route_type ≡ true
    pub full : IsFull ser.hashring

  module _ (apart : Apart rep among) where
    Holds-own :
        (p : Members) (hr : HashRing S) → Holds among p rep hr → Holds among (has_member hr) rep hr
    Holds-own p hr h = subst (λ q. Holds among q rep hr) (sym (fun_ext h.listed)) h

    change-IsFull :
        (c : Change) (r : Option (HashRing S))
        → among (Ring.Histories.subject c) ≡ true
        → IsFull r
        → IsFull (elim r [ none ↦ none | some hr ↦ some (change hr c) ])
    change-IsFull c none i h = h
    change-IsFull c (some hr) i h =
        Holds-own _ (change hr c) (change-Holds among rep apart c (has_member hr) hr i h)

    create_proxy-Tracks :
        (live : Members) (ser : Service S) (key value : Bytes)
        → among key ≡ true
        → Tracks live ser
        → Tracks (alter live (join key)) (Service.create_proxy ser key value).0
    unfolding alter change
    create_proxy-Tracks live ser key value i t = record {
      served = λ k. rw lookup-create_proxy (ground (arith, t.served k));
      hashed = ap is_hash (create_proxy_frame ser key value).0 ∙ t.hashed;
      full =
          rw (create_proxy_ring ser key value)
            (rw t.hashed (change-IsFull (join key) ser.hashring i t.full));
    }

    update-Tracks :
        (live : Members) (ser : Service S) (key : Bytes) (old p : Proxy)
        → lookup key ser.proxy_map ≡ some old
        → Tracks live ser
        → Tracks (alter live (join key)) (record ser { proxy_map = insert key p ser.proxy_map })
    unfolding alter
    update-Tracks live ser key old p e t = record {
      served = λ k. ground (arith, t.served k, lookup-insert key k p ser.proxy_map);
      hashed = t.hashed;
      full = t.full;
    }

    pub register_in-Tracks :
        (live : Members) (ser : Service S) (key value : Bytes)
        → among key ≡ true
        → Tracks live ser
        → Tracks (alter live (join key)) (register_in ser key value)
    unfolding register_in Service.get_proxy
    register_in-Tracks live ser key value i t = elim (Option-cases (lookup key ser.proxy_map)) [
      | inl e ↦ rw (e, register_in) (create_proxy-Tracks live ser key value i t)
      | inr (p, e) ↦ rw (e, register_in) (update-Tracks live ser key p _ e t)
    ]

    pub del_proxy-Tracks :
        (live : Members) (ser : Service S) (key : Bytes)
        → among key ≡ true
        → Tracks live ser
        → Tracks (alter live (leave key)) (Service.del_proxy ser key)
    unfolding alter change
    del_proxy-Tracks live ser key i t = record {
      served = λ k. rw lookup-del_proxy (ground (arith, t.served k));
      hashed = unfold Service.del_proxy in t.hashed;
      full =
          rw (del_proxy_ring ser key)
            (rw t.hashed (change-IsFull (leave key) ser.hashring i t.full));
    }

    pub new-Tracks :
        (name : Bytes) (opts : Options)
        → opts.dis_rep ≡ rep
        → Tracks nobody (Service.init S name opts hash_route)
    unfolding Service.init lookup
    new-Tracks name opts e = record {
      served = λ k. refl;
      hashed = refl;
      full = rw e (Holds-own nobody _ (new_hash_ring-Holds among rep apart opts.dis_len));
    }
