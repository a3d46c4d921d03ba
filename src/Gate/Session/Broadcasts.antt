-- ===== src/Gate/Session/Broadcasts.antt =====
-- A client's registrations for broadcasts, and what a broadcast does then.
use newtbig.Prelude.{
  ℕ, ◌^◌, ◌<◌, ◌≡◌, ◌≢◌, refl, ◌∙◌, Bool, true, false, Option, some, arith, nat_eq, if◌then◌else◌,
  Bytes, lookup, insert, lookup-insert,
}
use newtbig.Common.{Msg}
use newtbig.Common.Codes.{msg_reg_broat_cast, msg_disreg_broat_cast, msg_re_route}
use newtbig.Strings.Decimal.{itoa}
use newtbig.Strings.Decimal.RoundTrip.{parse_uint-itoa}
use newtbig.Gate.Session.{
  Session, World, put_session, set_bro_cast_status, send_msg, broadcast, msg_in, or_false,
}

-- The message of a client that registers for broadcasts, or takes its registration back.
abbrev pub registration : Bool → ℕ → Msg
registration on num = record {
  seq = 0;
  id = if on then msg_reg_broat_cast else msg_disreg_broat_cast;
  body = itoa num;
  key = 0;
  uid = 0;
}

set_bro_cast_status_registers :
    (on : Bool) (num : ℕ) (s : Session)
    → num < 2 ^ 32
    → set_bro_cast_status s (registration on num)
      ≡ some (record s { bro_msgs = insert num on s.bro_msgs })
unfolding set_bro_cast_status
set_bro_cast_status_registers true num s h = ground (arith, parse_uint-itoa 32 num h)
set_bro_cast_status_registers false num s h = ground (arith, parse_uint-itoa 32 num h)

-- A broadcast of a message that is not a reserved one.
broadcast_plain :
    (marshal : Msg → Option Bytes) (check_route : ℕ → Bool) (i : ℕ) (msg : Msg) (w : World)
    → msg.id ≢ 0
    → msg.id ≢ msg_re_route
    → broadcast marshal check_route i msg w ≡ (
        if or_false (lookup msg.id (w.session i).bro_msgs)
        then (
          put_session i (send_msg marshal (w.session i) msg).0 w,
          (send_msg marshal (w.session i) msg).1,
        )
        else (w, false))
unfolding broadcast
broadcast_plain marshal check_route i msg w n r = ground arith

module _ (marshal : Msg → Option Bytes) (verify : Msg → Bool) (hb_back : Bool) (now i : ℕ) where
  msg_in_registers :
      (on : Bool) (num : ℕ) (w : World)
      → num < 2 ^ 32
      → (w.session i).vrifyed ≡ true
      → msg_in marshal verify hb_back now i (registration on num) w ≡ (
        put_session i (record (w.session i) { bro_msgs = insert num on (w.session i).bro_msgs }) w,
        false,
      )
  unfolding msg_in
  msg_in_registers true num w h v =
      ground (arith, set_bro_cast_status_registers true num (w.session i) h)
  msg_in_registers false num w h v =
      ground (arith, set_bro_cast_status_registers false num (w.session i) h)

  -- After a verified session's client registered a nonzero 32-bit message id that is not
  -- Msg_ReRoute, a broadcast of that id does to the session what SendMsg does; after the client
  -- took the registration back, it changes nothing and is no error.
  pub broadcast_registered :
      (check_route : ℕ → Bool) (on : Bool) (msg : Msg) (w : World)
      → (w.session i).vrifyed ≡ true
      → msg.id < 2 ^ 32
      → msg.id ≢ 0
      → msg.id ≢ msg_re_route
      → let w' = (msg_in marshal verify hb_back now i (registration on msg.id) w).0 in
        broadcast marshal check_route i msg w' ≡ (
          if on
          then (
            put_session i (send_msg marshal (w'.session i) msg).0 w',
            (send_msg marshal (w'.session i) msg).1,
          )
          else (w', false))
  broadcast_registered check_route on msg w v h n r =
      let t = record (w.session i) { bro_msgs = insert msg.id on (w.session i).bro_msgs } in
      let w' = put_session i t w in
      let held : or_false (lookup msg.id (w'.session i).bro_msgs) ≡ on =
        ground (arith, lookup-insert msg.id msg.id on (w.session i).bro_msgs) in
      let plain = broadcast_plain marshal check_route i msg w' n r in
      rw (msg_in_registers on msg.id w h v) (plain ∙ rw held refl)
