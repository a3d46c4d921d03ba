-- ===== src/Dispatcher.antt =====
-- Service discovery and routing, dispatcher/dispatcher.go. The services of a dispatcher are records
-- in its map, so a write through a service pointer is a write of the map's entry. Logging and the
-- etcd client are left out: what etcd delivers is a list of events.
pub mod Proxy
pub mod Service
pub mod Configured
pub mod Invariant
pub mod Routes
pub mod Tracking
pub mod Counting
pub mod Agreement
pub mod Discovery
pub mod Statuses
pub mod Registered
pub mod Clearing
pub mod Watching
use newtbig.Prelude.{
  ℕ, zero, suc, ◌+◌, Bool, true, false, not, ◌&&◌, ◌||◌, List, [], ◌∷◌, ◌++◌, map, Option, none,
  some, ltb, leb, ◌==◌, nat_eq, bytes_eq, if◌then◌else◌, Bytes, codes, Assoc, is_some, lookup,
  insert, Result, ok, err, ◌>>=◌,
}
use newtbig.Common.{Msg, RouteType, hash_route}
use newtbig.Options.{Options}
use newtbig.Strings.Decimal.{atoi, to_int8}
use newtbig.Strings.Split.{split_on, trim_space}
use newtbig.Strings.FilePath.{dir, path2}
use newtbig.Ring.Interface.{SortedKeys}
use Service.{ServiceError}
use Proxy.{RpcCall}

pub data DispatchError : Type 0 where
  msg_is_nil id_not_exit service_not_exit service_not_provided type_is_nil id_is_nil : DispatchError
  no_server_provided route_is_nil : DispatchError
  service_failed : ServiceError → DispatchError

pub record Dispatcher (S : SortedKeys) : Type 0 where
  pub root : Bytes
  pub names : Assoc Bytes RouteType
  pub services : Assoc Bytes (Service.Service S)
  pub names_provided : Bool
  pub route : Option (Assoc ℕ Bytes)
  pub opts : Options
  pub my_name : Bytes
  pub my_type : Bytes
  pub g_key : Bytes

-- One configured name, given its parts: `name|type`, or a bare name for a Hash service.
unfoldable pub name_from :
    Bytes → Bytes → List Bytes → Assoc Bytes RouteType → Assoc Bytes RouteType
name_from root v (name ∷ kind ∷ []) names = elim (atoi kind) [
  | none ↦ names
  | some n ↦ insert (path2 root name) (to_int8 n) names
]
name_from root v _ names = insert (path2 root (trim_space v)) hash_route names

unfoldable pub add_name : Bytes → Bytes → Assoc Bytes RouteType → Assoc Bytes RouteType
unfolding name_from
add_name root v names = name_from root v (split_on b'|' (trim_space v)) names

unfoldable pub add_names : Bytes → List Bytes → Assoc Bytes RouteType → Assoc Bytes RouteType
unfolding add_name
add_names root [] names = names
add_names root (v ∷ vs) names = add_names root vs (add_name root v names)

gate_key : Bytes → List Bytes → Bytes
gate_key root [] = []
gate_key root (v ∷ vs) = path2 root v

abbrev is_nonempty : List Bytes → Bool
is_nonempty [] = false
is_nonempty (v ∷ vs) = true

-- `init` gives every field but `myName`, which nothing writes.
unfoldable pub init : (S : SortedKeys) → Options → Dispatcher S
unfolding add_names gate_key
init S opts = record {
  root = opts.app_name;
  names = add_names opts.app_name opts.server_con_types [];
  services = [];
  names_provided = is_nonempty opts.server_con_types;
  route = some [];
  opts = opts;
  my_name = [];
  my_type = path2 opts.app_name opts.server_type;
  g_key = gate_key opts.app_name opts.server_con_types;
}

-- `strings.ReplaceAll(filepath.Dir(key), "\\", "/")`.
unfoldable pub service_name : Bytes → Bytes
service_name key = map (λ c. if c == 92 then b'/' else c) (dir key)

-- Go's zero value for a missing name.
abbrev pub route_type_of : Option RouteType → RouteType
route_type_of none = 0
route_type_of (some t) = t

-- `p.names[name] <= 0`, for an int8 given by its bit pattern.
abbrev pub is_unnamed : RouteType → Bool
is_unnamed t = t == 0 || leb 128 t

-- What a service answers, as an answer of the dispatcher.
abbrev pub lift {ℓ} : {A : Type ℓ} → Result ServiceError A → Result DispatchError A
lift (ok a) = ok a
lift (err e) = err (service_failed e)

module _ {S : SortedKeys} where
  abbrev pub type_of : Dispatcher S → Bytes → RouteType
  type_of p name = route_type_of (lookup name p.names)

  -- Whether the configuration leaves a service out.
  abbrev pub is_excluded : Dispatcher S → Bytes → Bool
  is_excluded p name = p.names_provided && is_unnamed (type_of p name)

  abbrev pub service_or_new : Dispatcher S → Bytes → Service.Service S
  service_or_new p name = elim (lookup name p.services) [
    | some ser ↦ ser
    | none ↦ Service.init S name p.opts (type_of p name)
  ]

  -- The service after one registration: a new proxy, or a new status for a known one.
  unfoldable pub register_in : Service.Service S → Bytes → Bytes → Service.Service S
  register_in ser key value = elim (Service.get_proxy ser key) [
    | none ↦ (Service.create_proxy ser key value).0
    | some proxy ↦ record ser { proxy_map = insert key (Proxy.update proxy value) ser.proxy_map }
  ]

  -- The errors of CreateProxy and update are always nil, and so is that of addService.
  unfoldable pub add_service : Dispatcher S → Bytes → Bytes → Dispatcher S
  add_service p key value =
      let name = service_name key in
      if is_excluded p name then p else record p {
        services = insert name (register_in (service_or_new p name) key value) p.services;
      }

  unfoldable pub remove_service : Dispatcher S → Bytes → Dispatcher S × Option DispatchError
  remove_service p key =
      let name = service_name key in
      if is_excluded p name then (p, some service_not_provided) else elim (lookup name p.services) [
        | none ↦ (p, some service_not_exit)
        | some ser ↦
            (record p { services = insert name (Service.del_proxy ser key) p.services }, none)
      ]

  unfoldable pub register_callback : Dispatcher S → Bytes → Result DispatchError (List Bytes)
  register_callback p path = elim (lookup path p.services) [
    | none ↦ err service_not_exit
    | some ser ↦ ok (Service.register_callback ser)
  ]

  unfoldable pub registe_ser : Dispatcher S → ℕ → Bytes → Dispatcher S × Option DispatchError
  registe_ser p id key = elim p.route [
    | none ↦ (p, some route_is_nil)
    | some r ↦ (record p { route = some (insert id key r) }, none)
  ]

  unfoldable pub get_msg_key : Dispatcher S → ℕ → Result DispatchError Bytes
  get_msg_key p id = elim p.route [
    | none ↦ err id_not_exit
    | some r ↦ elim (lookup id r) [ none ↦ err id_not_exit | some key ↦ ok key ]
  ]

  unfoldable pub get_service : Dispatcher S → Option Msg → Result DispatchError (Service.Service S)
  get_service p none = err msg_is_nil
  get_service p (some msg) = do
    key ← get_msg_key p msg.id
    elim (lookup (path2 p.root key) p.services) [ none ↦ err service_not_exit | some ser ↦ ok ser ]

  unfoldable pub dispatch : Dispatcher S → Option Msg → Result DispatchError RpcCall
  dispatch p none = err msg_is_nil
  dispatch p (some msg) = do ser ← get_service p (some msg); lift (Service.dispatch ser msg)

  unfoldable pub request : Dispatcher S → Option Msg → Result DispatchError RpcCall
  request p none = err msg_is_nil
  request p (some msg) = do ser ← get_service p (some msg); lift (Service.request ser msg)

  unfoldable pub broadcast : Dispatcher S → Option Msg → Result DispatchError (List RpcCall)
  broadcast p none = err msg_is_nil
  broadcast p (some msg) = do ser ← get_service p (some msg); ok (Service.broadcast ser msg)

  unfoldable pub send_msg : Dispatcher S → Option Msg → Result DispatchError RpcCall
  send_msg p none = err msg_is_nil
  send_msg p (some msg) = do ser ← get_service p (some msg); lift (Service.send ser msg)

  unfoldable pub get_proxy : Dispatcher S → Bytes → ℕ → Result DispatchError Proxy.Proxy
  get_proxy p kind id =
      if kind == []
      then err type_is_nil
      else if id == 0
      then err id_is_nil
      else elim (lookup kind p.services) [
        | none ↦ err service_not_exit
        | some ser ↦ lift (Service.route_by_id ser id)
      ]

  unfoldable pub get_server : Dispatcher S → Bytes → ℕ → Result DispatchError Bytes
  get_server p kind id = do proxy ← get_proxy p kind id; ok proxy.ser_status

  unfoldable pub get_gate : Dispatcher S → ℕ → Result DispatchError Bytes
  get_gate p id = if p.names_provided then get_server p p.g_key id else err no_server_provided

  -- framepb.ServiceInfo, before it is marshalled.
  unfoldable pub get_status : Dispatcher S → List (Bytes × List Bytes)
  get_status p = map (λ entry. Service.status entry.1) p.services

  unfoldable pub check_route : Dispatcher S → ℕ → Bool
  check_route p key =
      if p.names_provided
      then elim (get_proxy p p.my_type key) [
        | err e ↦ false
        | ok proxy ↦ if p.my_name == proxy.ser_name then true else false
      ]
      else false

-- What etcd reports of a key.
pub data Event : Type 0 where
  put : Bytes → Bytes → Event
  delete : Bytes → Event

module _ {S : SortedKeys} where
  -- The loop of `watcher` over the events of the responses; its errors are logged only.
  unfoldable pub handle : Dispatcher S → Event → Dispatcher S
  handle p (put key value) = add_service p key value
  handle p (delete key) = (remove_service p key).0

  unfoldable pub watcher : Dispatcher S → List Event → Dispatcher S
  unfolding handle
  watcher p [] = p
  watcher p (event ∷ events) = watcher (handle p event) events

  -- The keys that `connectAll` finds under the root.
  unfoldable pub connect_all : Dispatcher S → List (Bytes × Bytes) → Dispatcher S
  connect_all p [] = p
  connect_all p ((key, value) ∷ kvs) = connect_all (add_service p key value) kvs

  -- `Start`, given what etcd answers to the Get: the keys, or an error, which is logged only.
  unfoldable pub start : Dispatcher S → Option (List (Bytes × Bytes)) → Dispatcher S
  start p none = p
  start p (some kvs) = connect_all p kvs
