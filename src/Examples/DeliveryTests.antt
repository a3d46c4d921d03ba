-- ===== src/Examples/DeliveryTests.antt =====
-- A message from one server to the login server l1, and the bounds of a NATS client.
use newtbig.Prelude.{
  ◌≡◌, refl, true, false, List, [], ◌∷◌, Option, none, some, Bytes, codes, ok, arith, lookup,
  insert, nat_eq, bytes_eq, bytes_beq,
}
use newtbig.Common.{Msg}
use newtbig.Process.{Processor, Outcome, Handler, dispose, returned, handle_msg}
use newtbig.Process
use newtbig.Registry.{new_service}
use newtbig.Ring
use newtbig.Ring.{hash_key, elt_key}
use newtbig.Ring.Crc32.{checksum_ieee}
use newtbig.Strings.Decimal.{atoi, to_int8, itoa}
use newtbig.Strings.Split.{split_on, trim_space}
use newtbig.Strings.FilePath.{dir}
use newtbig.Dispatcher.Proxy
use newtbig.Dispatcher.Proxy.{Proxy}
use newtbig.Dispatcher.Service
use newtbig.Dispatcher.Service.{Service}
use newtbig.Dispatcher.{
  Dispatcher, put, init, watcher, handle, add_service, register_in, get_service, get_msg_key,
  service_name, name_from, add_name, add_names,
}
use newtbig.Dispatcher.Invariant.{IsDispatcher, init-IsDispatcher, watcher-IsDispatcher}
use newtbig.Rpc.Nats
use newtbig.Rpc.Nats.{to_callback}
use newtbig.Rpc.Channel.{panics, blocks}
use newtbig.Rpc.Channel
use newtbig.Rpc.Client.{Client, init_client, send_msg, done}
use newtbig.Rpc.Handlers.{on_request}
use newtbig.Rpc.Facade.{Wire, call, call_nr, published, answered}
use newtbig.Rpc.Delivery.{RoutesTo, call_answered}
use newtbig.Rpc.Ending.{send_all, send_queue_fills, done_closes}
use newtbig.Examples.Keys.{list_keys}
use newtbig.Examples.ServiceTests.{test_options, first_key}
use newtbig.Examples.RpcTests.{named}
use newtbig.Examples.GateTests.{gate}
use newtbig.Gate.Run.{Callbacks, in_turn, out_turn, run_turn, receive_turn, received}
use newtbig.Gate.Run.Limits.{Writes, turns_of}
use newtbig.Gate.Manager.{get_session}
use newtbig.Gate.Arrival.{hand_over, IsUser}
use newtbig.Rpc.Nats.{Delivery}
use newtbig.Journey.{call_nr_arrives, client_message_arrives}
use newtbig.Gate.Session.Effects.{IsForeign}
use newtbig.Examples.LimitTests.{beats}

abbrev seen : Dispatcher list_keys
seen = watcher (init list_keys test_options) (put first_key (codes "up") ∷ [])

abbrev routed : Dispatcher list_keys
routed = record seen { route = some ((7, codes "login") ∷ []) }

routed-IsDispatcher : IsDispatcher routed
routed-IsDispatcher =
    let v =
      watcher-IsDispatcher (init list_keys test_options) (put first_key (codes "up") ∷ [])
        (init-IsDispatcher test_options) in
    record {
      sound = v.sound;
      located = v.located;
      fits = v.fits;
      configured = v.configured;
      admitted = v.admitted;
      nameless = v.nameless;
    }

abbrev greeting : Msg
greeting = record { seq = 0; id = 7; body = []; key = 5; uid = 5 }

abbrev answer : Msg
answer = record { seq = 0; id = 8; body = codes "hi"; key = 5; uid = 5 }

abbrev login_service : Service list_keys
login_service =
    register_in (Service.init list_keys (codes "app/login") test_options 1) first_key (codes "up")

abbrev login_proxy : Proxy
login_proxy = Proxy.init (codes "app/login") first_key test_options (codes "up")

found : get_service routed (some greeting) ≡ ok login_service
unfolding get_service get_msg_key watcher handle init add_service service_name add_names add_name
    name_from split_on trim_space atoi dir insert lookup bytes_beq to_int8 register_in
found = refl

chosen : Service.route_by_id login_service 5 ≡ ok login_proxy
unfolding Service.route_by_id Service.route_index Service.proxy_at Service.get_proxy register_in
    Service.create_proxy Service.add_proxy Service.init Ring.add Ring.add_loop Ring.new_hash_ring
    Ring.get Ring.owner_at elt_key hash_key checksum_ieee itoa insert lookup bytes_beq Proxy.init
chosen = refl

abbrev to_login : RoutesTo routed routed-IsDispatcher test_options greeting
to_login = record {
  ser = login_service;
  proxy = login_proxy;
  service = found;
  routed = chosen;
  registered = unfold Proxy.init new_service in refl;
}

-- A codec that writes the numbers as they are.
abbrev encode : Msg → Bytes
encode m = m.seq ∷ m.id ∷ m.key ∷ m.uid ∷ m.body

abbrev decode : Bytes → Option Msg
decode (seq ∷ id ∷ key ∷ uid ∷ body) =
    some (record { seq = seq; id = id; body = body; key = key; uid = uid })
decode _ = none

abbrev processor : Processor
processor = record (Process.init test_options) {
  msg_infos = (7, dispose (λ m. returned (some answer))) ∷ [];
}

abbrev wire : Wire
wire = record {
  publishes = λ subj body. true;
  answers = λ subj body. (on_request (λ m. some (encode m)) decode 3 processor (some body)).1;
}

same_app : routed.opts.app_name ≡ test_options.app_name
unfolding watcher handle init add_service service_name add_names add_name name_from split_on
    trim_space atoi dir insert lookup bytes_beq to_int8
same_app = refl

abbrev client : Client
client = init_client test_options

call_answered_example :
    call (λ m. some (encode m)) decode wire client routed greeting ≡ ok (answered answer)
call_answered_example =
    call_answered routed routed-IsDispatcher test_options named same_app encode decode (λ m. refl)
      wire client 3 processor greeting answer (λ m. returned (some answer)) to_login (λ body. refl)
      (unfold lookup in refl) refl

-- A client whose channels hold two messages.
abbrev two : List (Bytes × Msg)
two = (codes "a", greeting) ∷ (codes "b", greeting) ∷ []

send_queue_fills_example :
    (c : Client) × (send_all
        (λ m. some (encode m))
        two
        (init_client (record test_options { q_msg_len = 2 }))
      ≡ some c)
    × ((subj : Bytes) (msg : Msg) → send_msg (λ m. some (encode m)) subj msg c ≡ ok blocks)
send_queue_fills_example =
    send_queue_fills (λ m. some (encode m)) (λ m e. ground arith)
      (record test_options { q_msg_len = 2 }) two refl

abbrev finished : Client
finished = record client {
  is_open = false;
  is_done = true;
  call_back = record client.call_back { closed = true };
  msg_receive_chan = record client.msg_receive_chan { closed = true };
  msg_send_chan = record client.msg_send_chan { closed = true };
}

ended : done client ≡ some finished
unfolding done init_client Channel.close Channel.make_channel
ended = refl

done_closes_example :
    (done finished ≡ none)
    × ((msg : Msg) → Channel.put msg finished.call_back ≡ panics)
    × ((subj : Bytes) (msg : Msg) → send_msg (λ m. some (encode m)) subj msg finished ≡ ok panics)
done_closes_example = done_closes (λ m. some (encode m)) (λ m e. ground arith) client finished ended

-- The server is a gate, whose session 1 is that of user 5.
abbrev at_gate : Callbacks
at_gate = record { marshal = λ m. some (encode m); verify = λ m. true; check_route = λ uid. false }

first-IsUser : IsUser gate 5 1
unfolding get_session
first-IsUser = record { managed = unfold lookup in refl; verified = refl; owner = refl }

call_nr_arrives_example :
    (subj : Bytes) × (body : Bytes) × (delivery : Delivery) × (call_nr
        (λ m. some (encode m))
        decode
        wire
        client
        routed
        greeting
      ≡ ok (published subj body))
    × (Nats.handler decode (Nats.init test_options) true subj (some body) ≡ ok delivery)
    × Writes
        ((turns_of at_gate test_options 100 1 beats
            (out_turn (λ bytes. true))
            1
            (hand_over at_gate test_options delivery gate)).session
          1)
        []
        (encode greeting ∷ [])
call_nr_arrives_example =
    call_nr_arrives routed routed-IsDispatcher test_options named same_app encode decode (λ m. refl)
      wire client at_gate 100 1 beats greeting (λ bytes. true) [] [] gate to_login
      (λ subj body. refl) (λ e. omega (arith, e)) (λ e. omega (arith, e)) refl refl first-IsUser
      (record { runs = refl; is_opened = refl; queued = refl; wired = refl })

-- A client of user 9 sends the greeting, which names user 5.
greeting-IsForeign : IsForeign greeting
greeting-IsForeign = record {
  verifies_not = λ e. omega (arith, e);
  beats_not = λ e. omega (arith, e);
  registers_not = λ e. omega (arith, e);
  disregisters_not = λ e. omega (arith, e);
}

client_message_arrives_example :
    ((run_turn at_gate test_options in_turn 100 4
        (receive_turn at_gate test_options (received greeting) 4 gate)).calls
      ≡ greeting ∷ [])
    × (subj : Bytes) × (body : Bytes) × (call_nr
          (λ m. some (encode m))
          decode
          wire
          client
          routed
          greeting
        ≡ ok (published subj body))
    × (Nats.handler decode (Nats.init test_options) false subj (some body)
        ≡ ok (to_callback greeting))
client_message_arrives_example =
    client_message_arrives routed routed-IsDispatcher test_options named same_app encode decode
      (λ m. refl) wire client at_gate test_options 100 4 greeting gate beats
      (record { verified = refl; runs = refl; reading = refl }) refl greeting-IsForeign to_login
      (λ subj body. refl)
