-- ===== src/Examples/TcpTests.antt =====
-- Two ends of a TCP connection with a head of two bytes.
use newtbig.Prelude.{◌≡◌, ◌≢◌, ◌≤◌, refl, false, [], ◌∷◌, ◌++◌, Bytes, codes, length, ok, arith, ap}
use newtbig.Gate.Tcp.{Connect, make_bytes, on_init, on_send, receive_data, is_bad_size}
use newtbig.Gate.Tcp.Buffer.{capacity, length-make_bytes}
use newtbig.Gate.Tcp.Frames.{on_init-IsReady}
use newtbig.Gate.Tcp.Streams.{
  ArePeers, on_send_truncates, send_all, receive_all, send_all-receive_all,
}
use newtbig.Examples.ServiceTests.{test_options}

abbrev near : Connect
near = on_init test_options

near-ArePeers : ArePeers near near
unfolding on_init
near-ArePeers = record {
  ready = on_init-IsReady test_options;
  listening = refl;
  same = refl;
  sized = omega arith;
}

send_all-receive_all_example :
    (c' : Connect) × (wire : Bytes) × (send_all near (codes "one" ∷ codes "two" ∷ [])
      ≡ ok (c', wire))
    × (receive_all near 2 (wire ++ []) ≡ ok (codes "one" ∷ codes "two" ∷ [], []))
send_all-receive_all_example =
    send_all-receive_all near near (codes "one" ∷ codes "two" ∷ []) [] near-ArePeers
      (unfold on_init in ((refl, omega arith), ((refl, omega arith), tt)))

-- MaxPacketSize is larger than two bytes can count.
abbrev large : Connect
large = on_init (record test_options { max_packet_size = 70000 })

large-ArePeers : ArePeers large large
unfolding on_init
large-ArePeers = record {
  ready = on_init-IsReady (record test_options { max_packet_size = 70000 });
  listening = refl;
  same = refl;
  sized = omega arith;
}

large_is_allowed : is_bad_size large.opts (length (make_bytes 65536)) ≡ false
unfolding on_init
large_is_allowed = ap (is_bad_size large.opts) (length-make_bytes 65536)

large_is_long : capacity large.opts ≤ length (make_bytes 65536)
unfolding on_init
large_is_long = rw length-make_bytes (omega arith)

on_send_truncates_example :
    (c' : Connect) × (frame : Bytes) × (on_send large (make_bytes 65536) ≡ ok (c', frame))
    × (receive_data large (frame ++ codes "more") ≢ ok (make_bytes 65536, codes "more"))
on_send_truncates_example =
    on_send_truncates large large (make_bytes 65536) (codes "more") (codes "more") large-ArePeers
      large_is_allowed large_is_long

abbrev stream : Bytes
stream = 0 ∷ 2 ∷ 104 ∷ 105 ∷ 33 ∷ []
