-- ===== src/Dispatcher/Service/Routing.antt =====
-- Routing by id: what `RouteById` returns for a Hash service, and for the others.
use newtbig.Prelude.{
  ℕ, ◌<◌, ◌≡◌, ◌≢◌, refl, sym, ◌∙◌, ap, subst, true, false, [], ◌∷◌, ◌++◌, Option, none, some,
  arith, bytes_eq, nat_eq, bytes_beq_iff, Bytes, codes, lookup, is_some, length, ok, err,
  Option-cases, inl, inr, ◌⊎◌, Result-cases,
}
use newtbig.Strings.Decimal.{itoa, itoa-IsDigits, IsDigits}
use newtbig.Strings.Split.{Without, Without-append}
use newtbig.Strings.FilePath.{slash}
use newtbig.Ring.Interface.{SortedKeys}
use newtbig.Ring.{RingError, HashRing, hash_key, has_member}
use newtbig.Ring
use newtbig.Ring.Lookup.{IsSuccessor, get-IsSuccessor, get-member}
use newtbig.Ring.Consistency.{add_moves_to_new}
use newtbig.Dispatcher.Proxy.{Proxy}
use newtbig.Dispatcher.Service.{
  Service, is_hash, get_proxy, create_proxy, route_index, proxy_at, route_by_id,
}
use newtbig.Dispatcher.Service.Invariant.{
  IsService, create_proxy-IsService, Ringed, lookup-create_proxy, create_proxy_ring,
  create_proxy_frame,
}

module _ {S : SortedKeys} (s : Service S) (v : IsService s)
    (hash : is_hash s.route_type ≡ true) where
  some_of : {A : Type 0} (o : Option A) → is_some o ≡ true → (a : A) × (o ≡ some a)
  some_of none h = cc
  some_of (some a) h = (a, refl)

  -- A well-formed Hash service with a count other than zero and points on its ring routes every id,
  -- to the stored proxy whose key owns the successor of the hash of the id's decimal text.
  pub route_by_id-owner :
      (hr : HashRing S) (id : ℕ)
      → s.hashring ≡ some hr
      → s.count ≢ 0
      → 0 < length hr.ring_map
      → (k : ℕ) × (p : Proxy) × IsSuccessor hr.ring_map (hash_key (itoa id)) k
        × (lookup k hr.ring_map ≡ some p.key)
        × (lookup p.key s.proxy_map ≡ some p)
        × (route_by_id s id ≡ ok p)
  unfolding route_by_id route_index proxy_at get_proxy
  route_by_id-owner hr id e counted points =
      let (ring, same, over) = subst (λ r. Ringed s.opts.dis_rep r s.proxy_map) e (v.ringed hash) in
      let (k, elt, succ, own, got) = get-IsSuccessor hr ring (itoa id) points in
      let (p, found) =
        some_of (lookup elt s.proxy_map) (sym (over elt) ∙ get-member hr ring (itoa id) elt got) in
      let keyed = v.keyed elt p found in
      (k, p, succ, ground arith, ground arith, ground (arith, got))

  -- A routed proxy is stored under its key, and its key is a member of the ring.
  pub route_by_id-stored :
      (id : ℕ) (p : Proxy)
      → route_by_id s id ≡ ok p
      → (hr : HashRing S) × (s.hashring ≡ some hr)
        × (lookup p.key s.proxy_map ≡ some p)
        × (Ring.get hr (itoa id) ≡ ok p.key)
  unfolding route_by_id route_index proxy_at get_proxy
  route_by_id-stored id p h = elim (Option-cases s.hashring) [
    | inl e ↦ absurd (ground arith)
    | inr (hr, e) ↦ stored_under hr e (Result-cases (Ring.get hr (itoa id)))
  ]
    where
      stored_under :
          (hr : HashRing S)
          → s.hashring ≡ some hr
          → ((index : Bytes) × (Ring.get hr (itoa id) ≡ ok index))
            ⊎ ((e : RingError) × (Ring.get hr (itoa id) ≡ err e))
          → (hr : HashRing S) × (s.hashring ≡ some hr)
            × (lookup p.key s.proxy_map ≡ some p)
            × (Ring.get hr (itoa id) ≡ ok p.key)
      stored_under hr e (inr (x, g)) = absurd (ground arith)
      stored_under hr e (inl (index, g)) =
          let found : lookup index s.proxy_map ≡ some p = ground arith in
          let keyed = v.keyed index p found in (hr, e, ground arith, ground arith)

-- A service that is not of the Hash type looks proxies up under `route_<id>`, which holds no slash;
-- registered keys do, so it never routes.
pub direct_never_routes :
    {S : SortedKeys} (s : Service S) (id : ℕ)
    → is_hash s.route_type ≡ false
    → ((k : Bytes) (p : Proxy) → lookup k s.proxy_map ≡ some p → ¬ Without slash k)
    → (p : Proxy) → route_by_id s id ≢ ok p
unfolding route_by_id route_index proxy_at get_proxy
direct_never_routes s id direct slashed p h =
    slashed (codes "route_" ++ itoa id) p (ground arith) (index_slashless id)
  where
    digits_slashless : (ds : Bytes) → IsDigits ds → Without slash ds
    digits_slashless [] h = tt
    digits_slashless (d ∷ ds) h = (omega arith, digits_slashless ds h.1)

    index_slashless : (id : ℕ) → Without slash (codes "route_" ++ itoa id)
    index_slashless id =
        Without-append slash (codes "route_") (itoa id) (omega arith)
          (digits_slashless (itoa id) (itoa-IsDigits id))

module _ {S : SortedKeys} (s : Service S) (v : IsService s)
    (hash : is_hash s.route_type ≡ true) where
  -- In a well-formed Hash service, CreateProxy moves ids to its own key only: an id that is routed
  -- before and after goes to a proxy with that key or to the same proxy as before.
  pub create_proxy_moves :
      (key value : Bytes) (id : ℕ) (p q : Proxy)
      → route_by_id s id ≡ ok p
      → route_by_id (create_proxy s key value).0 id ≡ ok q
      → (q.key ≡ key) ⊎ (q ≡ p)
  create_proxy_moves key value id p q before after =
      let t = (create_proxy s key value).0 in
      let hash' = ap is_hash (create_proxy_frame s key value).0 ∙ hash in
      let (hr, e, stored_p, got_p) = route_by_id-stored s v hash id p before in
      let (hr', e', stored_q, got_q) =
        route_by_id-stored t (create_proxy-IsService s key value v) hash' id q after in
      let ring = (subst (λ r. Ringed s.opts.dis_rep r s.proxy_map) e (v.ringed hash)).0 in
      let grown : hr' ≡ (Ring.add hr key).0 = ground (arith, create_proxy_ring s key value) in
      elim (add_moves_to_new hr ring key (itoa id) p.key q.key got_p (cc (grown, got_q))) [
        | inl new ↦ inl new
        | inr old ↦ ground (
          arith,
          old,
          stored_q,
          stored_p,
          lookup-create_proxy s key value q.key,
          bytes_beq_iff key q.key,
        )
      ]
