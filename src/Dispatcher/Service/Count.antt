-- ===== src/Dispatcher/Service/Count.antt =====
-- The proxy count of a service, an int32 that `RouteById` tests for zero.
use newtbig.Prelude.{
  ℕ, ◌+◌, ◌≤◌, ◌%◌, ◌^◌, ◌≡◌, refl, ◌∙◌, ap, true, [], ◌∷◌, none, arith, bytes_eq, nat_eq, Bytes,
  Assoc, lookup, erase, is_some, IsUnique, length, length-insert, length-erase, erase_absent,
  erase_head, err,
}
use newtbig.Ring.Interface.{SortedKeys}
use newtbig.Dispatcher.Proxy
use newtbig.Dispatcher.Proxy.{Proxy}
use newtbig.Dispatcher.Service.{
  Service, no_proxy, add_proxy, del_proxy, create_proxy, destroy_loop, destroy, route_by_id,
}
use newtbig.Dispatcher.Service.Invariant.{IsService}

module _ {S : SortedKeys} where
  -- The count is the number of proxies, as an int32.
  abbrev pub IsCounted : Service S → Type 0
  IsCounted s = s.count ≡ length s.proxy_map % 2 ^ 32

  -- Where the count is the number of the proxies as an int32, CreateProxy of a new key keeps it so.
  pub create_proxy-IsCounted :
      (s : Service S) (key value : Bytes)
      → lookup key s.proxy_map ≡ none
      → IsCounted s
      → IsCounted (create_proxy s key value).0
  unfolding create_proxy add_proxy Proxy.init
  create_proxy-IsCounted s key value fresh c =
      ground (arith, length-insert key (Proxy.init s.ser_type key s.opts value) s.proxy_map)

  -- Where the count of a well-formed service is the number of its proxies as an int32, DelProxy of
  -- a key that is there keeps it so.
  pub del_proxy-IsCounted :
      (s : Service S) (key : Bytes)
      → IsService s
      → is_some (lookup key s.proxy_map) ≡ true
      → IsCounted s
      → IsCounted (del_proxy s key)
  unfolding del_proxy
  del_proxy-IsCounted s key v known c = ground (arith, length-erase key s.proxy_map v.unique)

  -- CreateProxy makes one proxy more at most, and DelProxy none.
  pub create_proxy_length :
      (s : Service S) (key value : Bytes)
      → length (create_proxy s key value).0.proxy_map ≤ length s.proxy_map + 1
  unfolding create_proxy add_proxy Proxy.init
  create_proxy_length s key value =
      ground (arith, length-insert key (Proxy.init s.ser_type key s.opts value) s.proxy_map)

  pub del_proxy_length :
      (s : Service S) (key : Bytes)
      → IsService s
      → length (del_proxy s key).proxy_map ≤ length s.proxy_map
  unfolding del_proxy
  del_proxy_length s key v = ground (arith, length-erase key s.proxy_map v.unique)

  -- DelProxy of a key that is not there, on a service with one proxy and a count of one, keeps that
  -- proxy and makes the service refuse every id.
  pub del_proxy_absent :
      (s : Service S) (key : Bytes) (id : ℕ)
      → IsCounted s
      → length s.proxy_map ≡ 1
      → lookup key s.proxy_map ≡ none
      → ((del_proxy s key).proxy_map ≡ s.proxy_map)
        × (route_by_id (del_proxy s key) id ≡ err no_proxy)
  unfolding del_proxy route_by_id
  del_proxy_absent s key id c one absent = (erase_absent key s.proxy_map absent, ground arith)

  destroy_loop_empty :
      (m : Assoc Bytes Proxy) (s : Service S)
      → s.proxy_map ≡ m
      → IsUnique m
      → s.count ≡ length m % 2 ^ 32
      → ((destroy_loop m s).proxy_map ≡ []) × ((destroy_loop m s).count ≡ 0)
  unfolding destroy_loop
  destroy_loop_empty [] s e u c = (e, c)
  destroy_loop_empty ((k, p) ∷ m) s e u c =
      destroy_loop_empty m _ (ap (erase k) e ∙ erase_head k p m u.0) u.1 (omega arith)

  -- Destroy of a well-formed service with the right count leaves no proxy and a count of zero.
  pub destroy_all :
      (s : Service S)
      → IsService s
      → IsCounted s
      → ((destroy s).proxy_map ≡ []) × ((destroy s).count ≡ 0)
  unfolding destroy
  destroy_all s v c = destroy_loop_empty s.proxy_map s refl v.unique c
