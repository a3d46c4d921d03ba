-- ===== src/Examples/ServiceTests.antt =====
-- A Hash service with one and with two servers.
use newtbig.Prelude.{
  ℕ, ◌≡◌, ◌≢◌, refl, true, [], ◌∷◌, none, some, Bytes, codes, lookup, insert, length, ok, ◌<◌,
  arith, is_some, nat_eq, bytes_eq, bytes_beq, ap,
}
use newtbig.Options.{Options}
use newtbig.Ring
use newtbig.Ring.{HashRing, hash_key, elt_key}
use newtbig.Ring.Crc32.{checksum_ieee}
use newtbig.Ring.Lookup.{IsSuccessor}
use newtbig.Strings.Decimal.{itoa}
use newtbig.Dispatcher.Proxy
use newtbig.Dispatcher.Proxy.{Proxy}
use newtbig.Dispatcher.Service.{
  Service, is_hash, init, add_proxy, create_proxy, route_by_id, route_index, proxy_at, get_proxy,
}
use newtbig.Dispatcher.Service.Invariant.{IsService, init-IsService, create_proxy-IsService}
use newtbig.Dispatcher.Service.Count.{IsCounted}
use newtbig.Dispatcher.Service.Routing.{route_by_id-owner}
use newtbig.Examples.Keys.{list_keys}

-- The login server l1 of `app`, which knows gates, login servers and a Direct chat service.
abbrev pub test_options : Options
test_options = record {
  context = none;
  host_name = [];
  pid = [];
  metadata = [];
  version = codes "1";
  run_mode = codes "debug";
  debug = true;
  parse = true;
  work_dir = codes "/srv";
  app_name = codes "app";
  conf_name = codes "app";
  etcd_hosts = codes "10.0.0.2:2379" ∷ [];
  etcd_user = [];
  etcd_password = [];
  etcd_cert_file = [];
  etcd_key_file = [];
  net_type = codes "tcp";
  server_type = codes "login";
  server_name = codes "l1";
  server_ip = codes "0.0.0.0";
  server_ip_out = codes "10.0.0.1";
  server_port = codes "80";
  server_con_types = codes "gate" ∷ codes "login|1" ∷ codes "chat|2" ∷ [];
  heart_beat_interval = 30;
  exit_wait_ttl = 10;
  register_interval = 3;
  register_ttl = 5;
  rpc_expired = 5;
  rpc_max_coroutine = 0;
  max_conn = 100;
  max_packet_size = 1024;
  read_deadline = 60;
  write_deadline = 60;
  rpm_limit = 300;
  max_msg_chan_len = 16;
  net_head_size = 2;
  byte_order = true;
  nats_hosts = codes "10.0.0.3:4222" ∷ codes "10.0.0.4:4222" ∷ [];
  serv = some 1;
  process = some 2;
  rpc = none;
  dis_len = 64;
  dis_rep = 3;
  hb_back = true;
  q_msg_len = 16;
}

abbrev fresh_service : Service list_keys
fresh_service = init list_keys (codes "app/login") test_options 1

abbrev pub first_key : Bytes
first_key = codes "app/login/l1"

abbrev pub second_key : Bytes
second_key = codes "app/login/l2"

abbrev one_proxy : Service list_keys
one_proxy = (create_proxy fresh_service first_key (codes "up")).0

abbrev two_proxies : Service list_keys
two_proxies = (create_proxy one_proxy second_key (codes "up")).0

abbrev first_proxy : Proxy
first_proxy = Proxy.init (codes "app/login") first_key test_options (codes "up")

abbrev second_proxy : Proxy
second_proxy = Proxy.init (codes "app/login") second_key test_options (codes "up")

fresh_service-IsService : IsService fresh_service
fresh_service-IsService = init-IsService (codes "app/login") test_options 1

one_proxy-IsService : IsService one_proxy
one_proxy-IsService =
    create_proxy-IsService fresh_service first_key (codes "up") fresh_service-IsService

two_proxies-IsService : IsService two_proxies
two_proxies-IsService = create_proxy-IsService one_proxy second_key (codes "up") one_proxy-IsService

first_is_stored : lookup first_key one_proxy.proxy_map ≡ some first_proxy
unfolding create_proxy add_proxy init Proxy.init insert lookup bytes_beq
first_is_stored = refl

second_is_absent : lookup second_key one_proxy.proxy_map ≡ none
unfolding create_proxy add_proxy init Proxy.init insert lookup bytes_beq
second_is_absent = refl

one_proxy-IsCounted : IsCounted one_proxy
unfolding create_proxy add_proxy init Proxy.init insert lookup
one_proxy-IsCounted = refl

first_is_known : is_some (lookup first_key one_proxy.proxy_map) ≡ true
first_is_known = ap is_some first_is_stored

one_is_stored : length one_proxy.proxy_map ≡ 1
unfolding create_proxy add_proxy init Proxy.init insert lookup
one_is_stored = refl

routed_before : route_by_id one_proxy 2 ≡ ok first_proxy
unfolding route_by_id route_index proxy_at get_proxy create_proxy add_proxy init Proxy.init Ring.get
    Ring.owner_at Ring.add Ring.add_loop Ring.new_hash_ring insert lookup elt_key hash_key
    checksum_ieee itoa bytes_beq
routed_before = refl

routed_after : route_by_id two_proxies 2 ≡ ok second_proxy
unfolding route_by_id route_index proxy_at get_proxy create_proxy add_proxy init Proxy.init Ring.get
    Ring.owner_at Ring.add Ring.add_loop Ring.new_hash_ring insert lookup elt_key hash_key
    checksum_ieee itoa bytes_beq
routed_after = refl

hash_service : is_hash one_proxy.route_type ≡ true
unfolding create_proxy add_proxy init lookup
hash_service = refl

abbrev grown_ring : HashRing list_keys
grown_ring = (Ring.add (Ring.new_hash_ring list_keys 3 64) first_key).0

ring_of_one : one_proxy.hashring ≡ some grown_ring
unfolding create_proxy add_proxy init Proxy.init insert lookup
ring_of_one = refl

one_counted : one_proxy.count ≢ 0
unfolding create_proxy add_proxy init Proxy.init insert lookup
one_counted = omega arith

one_has_points : 0 < length grown_ring.ring_map
unfolding Ring.add Ring.add_loop Ring.new_hash_ring insert elt_key hash_key itoa checksum_ieee
one_has_points = omega arith

route_by_id-owner_example :
    (k : ℕ) × (p : Proxy) × IsSuccessor grown_ring.ring_map (hash_key (itoa 2)) k
    × (lookup k grown_ring.ring_map ≡ some p.key)
    × (lookup p.key one_proxy.proxy_map ≡ some p)
    × (route_by_id one_proxy 2 ≡ ok p)
route_by_id-owner_example =
    route_by_id-owner one_proxy one_proxy-IsService hash_service grown_ring 2 ring_of_one
      one_counted one_has_points
