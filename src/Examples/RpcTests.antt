-- ===== src/Examples/RpcTests.antt =====
-- The registration of a server, and messages to it from a gate that knows it.
use newtbig.Prelude.{
  ◌≡◌, refl, true, false, [], ◌∷◌, Option, none, some, Bytes, codes, ok, err, arith,
}
use newtbig.Common.{Msg}
use newtbig.Strings.FilePath.{IsPlain}
use newtbig.Registry.{run, run_silent}
use newtbig.Rpc.Nats.{init, handler, to_session, to_all_sessions, subject_unknown}
use newtbig.Rpc.Subjects.{IsNamed, proxy_of, handler_receives}
use newtbig.Examples.ServiceTests.{test_options}

run_silent_example : run 5 3 (false ∷ false ∷ false ∷ false ∷ false ∷ []) ≡ 0
run_silent_example = run_silent 5 3 (false ∷ false ∷ false ∷ false ∷ false ∷ []) (omega arith)

app-IsPlain : IsPlain (codes "app")
app-IsPlain = record {
  slashless = ground arith;
  nonempty = λ e. ground arith;
  not_dot = λ e. ground arith;
  not_dots = λ e. ground arith;
}

login-IsPlain : IsPlain (codes "login")
login-IsPlain = record {
  slashless = ground arith;
  nonempty = λ e. ground arith;
  not_dot = λ e. ground arith;
  not_dots = λ e. ground arith;
}

l1-IsPlain : IsPlain (codes "l1")
l1-IsPlain = record {
  slashless = ground arith;
  nonempty = λ e. ground arith;
  not_dot = λ e. ground arith;
  not_dots = λ e. ground arith;
}

pub named : IsNamed test_options
named = record {
  app = (app-IsPlain, ground arith);
  kind = (login-IsPlain, ground arith);
  name = l1-IsPlain;
}

-- A message by its id, as one byte.
abbrev marshal_id : Msg → Bytes
marshal_id msg = msg.id ∷ []

abbrev unmarshal_id : Bytes → Option Msg
unmarshal_id [] = none
unmarshal_id (id ∷ _) = some (record { seq = 0; id = id; body = []; key = 0; uid = 0 })

abbrev ping : Msg
ping = record { seq = 0; id = 7; body = []; key = 0; uid = 0 }

handler_receives_example :
    let p = proxy_of test_options test_options (codes "up") in
    let received = λ (subject : Bytes).
      handler unmarshal_id (init test_options) true subject (some (marshal_id ping)) in
    (received p.pub_key ≡ ok (to_session ping))
    × (received p.bc_key ≡ ok (to_all_sessions ping))
    × (received p.send_key ≡ err subject_unknown)
handler_receives_example =
    handler_receives test_options test_options (codes "up") named refl marshal_id unmarshal_id true
      ping refl
