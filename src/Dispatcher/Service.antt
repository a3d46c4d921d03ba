-- ===== src/Dispatcher/Service.antt =====
-- The service of one server type, dispatcher/service.go. Each method runs under the dispatcher's
-- lock or on a sync.Map, so it is one step; a method that writes returns the new service.
pub mod Invariant
pub mod Count
pub mod Routing
pub mod Tracking
use newtbig.Prelude.{
  ℕ, zero, suc, ◌+◌, ◌-◌, ◌^◌, ◌%◌, Bool, true, false, not, List, [], ◌∷◌, ◌++◌, map, Option, none,
  some, ltb, ◌==◌, nat_eq, bytes_eq, if◌then◌else◌, length, Bytes, codes, Assoc, is_some, keys,
  lookup, insert, erase, Result, ok, err, ◌>>=◌,
}
use newtbig.Common.{Msg, RouteType, hash_route}
use newtbig.Options.{Options}
use newtbig.Strings.Decimal.{itoa}
use newtbig.Ring.Interface.{SortedKeys}
use newtbig.Ring.{HashRing, new_hash_ring}
use newtbig.Ring
use newtbig.Dispatcher.Proxy
use newtbig.Dispatcher.Proxy.{Proxy, RpcCall}

pub data ServiceError : Type 0 where
  -- nil_ring stands for the nil pointer panic of a Hash service with no ring.
  no_proxy ring_is_empty nil_ring proxy_is_nil proxy_not_exit callbacks_not_init : ServiceError

-- A channel of strings: nil, or its capacity and what is queued.
pub data Chan : Type 0 where
  nil_chan : Chan
  buffered : ℕ → List Bytes → Chan

pub record Service (S : SortedKeys) : Type 0 where
  pub proxy_map : Assoc Bytes Proxy
  pub hashring : Option (HashRing S)
  pub count : ℕ  -- int32, as its bit pattern
  pub callbacks : List Chan
  pub ser_type : Bytes
  pub opts : Options
  pub route_type : RouteType

abbrev pub is_hash : RouteType → Bool
is_hash t = t == hash_route

-- atomic.AddInt32 by 1 and by -1.
abbrev pub add_count : ℕ → ℕ
add_count c = (c + 1) % 2 ^ 32

abbrev pub sub_count : ℕ → ℕ
sub_count c = (c + (2 ^ 32 - 1)) % 2 ^ 32

nil_chans : ℕ → List Chan
nil_chans zero = []
nil_chans (suc n) = nil_chan ∷ nil_chans n

-- A send in a `select` with a default, with no receiver waiting.
offer : Bytes → Chan → Chan
offer key nil_chan = nil_chan
offer key (buffered cap queue) =
    if ltb (length queue) cap then buffered cap (queue ++ key ∷ []) else buffered cap queue

broadcast_over : Assoc Bytes Proxy → Msg → List RpcCall
broadcast_over [] msg = []
broadcast_over ((key, proxy) ∷ rest) msg = Proxy.broadcast_on proxy msg ∷ broadcast_over rest msg

statuses : Assoc Bytes Proxy → List Bytes
statuses [] = []
statuses ((key, proxy) ∷ rest) = proxy.ser_status ∷ statuses rest

module _ (S : SortedKeys) where
  unfoldable pub init : Bytes → Options → RouteType → Service S
  unfolding nil_chans
  init ser_type opts route_type = record {
    proxy_map = [];
    hashring =
        if is_hash route_type then some (new_hash_ring S opts.dis_rep opts.dis_len) else none;
    count = 0;
    callbacks = nil_chans 256;
    ser_type = ser_type;
    opts = opts;
    route_type = route_type;
  }

module _ {S : SortedKeys} where
  unfoldable pub get_proxy : Service S → Bytes → Option Proxy
  get_proxy s key = lookup key s.proxy_map

  -- LoadOrStore keeps a proxy that is there; the count goes up all the same.
  unfoldable pub add_proxy : Service S → Proxy → Service S × Bool
  add_proxy s cl = elim (lookup cl.key s.proxy_map) [
    | some old ↦ (record s { count = add_count s.count }, false)
    | none ↦
        (record s { count = add_count s.count; proxy_map = insert cl.key cl s.proxy_map }, true)
  ]

  -- OnClose always succeeds, so the proxy is deleted on every path.
  unfoldable pub del_proxy : Service S → Bytes → Service S
  del_proxy s key =
      let ring =
        (if is_hash s.route_type
          then elim s.hashring [ none ↦ none | some hr ↦ some (Ring.remove hr key) ]
          else s.hashring) in
      record s { hashring = ring; proxy_map = erase key s.proxy_map; count = sub_count s.count }

  -- The ring's ids are returned for a Hash service, and nil for the others.
  unfoldable pub create_proxy : Service S → Bytes → Bytes → Service S × Option (List ℕ)
  unfolding offer
  create_proxy s key value =
      let proxy = Proxy.init s.ser_type key s.opts value in
      let added = (add_proxy s proxy).0 in
      let told = record added { callbacks = map (offer key) added.callbacks } in
      if is_hash s.route_type
      then elim told.hashring [
        | none ↦ (told, none)
        | some hr ↦
            let (hr', ids) = Ring.add hr proxy.key in
            (record told { hashring = some hr' }, some ids)
      ]
      else (told, none)

  unfoldable pub update_status : Service S → Bytes → Bytes → Result ServiceError (Service S)
  update_status s key value = elim (get_proxy s key) [
    | none ↦ err proxy_not_exit
    | some proxy ↦ ok (record s { proxy_map = insert key (Proxy.update proxy value) s.proxy_map })
  ]

  destroy_loop : Assoc Bytes Proxy → Service S → Service S
  destroy_loop [] s = s
  destroy_loop ((key, proxy) ∷ rest) s =
      destroy_loop rest (record s { count = sub_count s.count; proxy_map = erase key s.proxy_map })

  pub destroy : Service S → Service S
  unfolding destroy_loop
  destroy s = destroy_loop s.proxy_map s

  -- The key under which the proxy for an id is looked up.
  unfoldable pub route_index : Service S → ℕ → Result ServiceError Bytes
  route_index s id =
      if is_hash s.route_type
      then elim s.hashring [
        | none ↦ err nil_ring
        | some hr ↦ elim (Ring.get hr (itoa id)) [ ok index ↦ ok index | err e ↦ err ring_is_empty ]
      ]
      else ok (codes "route_" ++ itoa id)

  unfoldable pub proxy_at : Service S → Bytes → Result ServiceError Proxy
  proxy_at s index = elim (get_proxy s index) [ none ↦ err proxy_is_nil | some p ↦ ok p ]

  unfoldable pub route_by_id : Service S → ℕ → Result ServiceError Proxy
  route_by_id s id =
      if s.count == 0 then err no_proxy else do index ← route_index s id; proxy_at s index

  unfoldable pub route : Service S → Msg → Result ServiceError Proxy
  route s msg = route_by_id s msg.key

  unfoldable pub dispatch : Service S → Msg → Result ServiceError RpcCall
  dispatch s msg = do proxy ← route s msg; ok (Proxy.publish_on proxy msg)

  unfoldable pub request : Service S → Msg → Result ServiceError RpcCall
  request s msg = do proxy ← route s msg; ok (Proxy.request_on proxy msg)

  unfoldable pub send : Service S → Msg → Result ServiceError RpcCall
  send s msg = do proxy ← route s msg; ok (Proxy.send_msg_on proxy msg)

  pub broadcast : Service S → Msg → List RpcCall
  unfolding broadcast_over
  broadcast s msg = broadcast_over s.proxy_map msg

  -- `callbacks` is made by `init`, so it is never nil; the callback is told the keys of now.
  pub register_callback : Service S → List Bytes
  register_callback s = keys s.proxy_map

  -- framepb.ServiceStatus: the service's name and each proxy's status.
  pub status : Service S → Bytes × List Bytes
  unfolding statuses
  status s = (s.ser_type, statuses s.proxy_map)
