-- ===== src/Demo/Apps.antt =====
-- The demo's messages, handlers and registrations: demo/msg, demo/app and demo/gate. The RPC client
-- that a handler is given is the list of the calls that it makes.
use newtbig.Prelude.{ℕ, List, [], ◌∷◌, Bool, true, some, codes, nat_eq}
use newtbig.Common.{Msg}
use newtbig.Common.Codes.{msg_kick, msg_kick_rst}
use newtbig.Process
use newtbig.Process.{Processor, Handler, Outcome, dispose, returned}
use newtbig.Ring.Interface.{SortedKeys}
use newtbig.Dispatcher.{Dispatcher, registe_ser}

abbrev pub msg_login : ℕ
msg_login = 20001

abbrev pub msg_start : ℕ
msg_start = 20002

abbrev pub msg_login_rst : ℕ
msg_login_rst = 30001

abbrev pub msg_start_rst : ℕ
msg_start_rst = 30002

-- A reply to a user, with the user's id as its key.
abbrev reply_to : ℕ → Msg → Msg
reply_to id req = record { seq = req.seq; id = id; body = []; key = req.uid; uid = req.uid }

-- What a handler returns, and the messages that it passes to CallNR.
unfoldable pub handle_kick_req : Msg → Msg × List Msg
handle_kick_req req = (record { seq = 0; id = msg_kick_rst; body = []; key = 0; uid = 0 }, [])

unfoldable pub handle_login_req : Msg → Msg × List Msg
handle_login_req req = (reply_to msg_login_rst req, reply_to msg_login_rst req ∷ [])

unfoldable pub handle_start_req : Msg → Msg × List Msg
handle_start_req req = (reply_to msg_start_rst req, reply_to msg_start_rst req ∷ [])

-- A handler as the processor takes it.
abbrev pub disposing : (Msg → Msg × List Msg) → Handler
disposing f = dispose (λ msg. returned (some (f msg).0))

-- registe of demo/app: the routes of the replies, and the handlers.
unfoldable pub registe_app_routes : {S : SortedKeys} → Dispatcher S → Dispatcher S
registe_app_routes d =
    let gate = codes "gate" in
    let d1 = (registe_ser d msg_login_rst gate).0 in
    let d2 = (registe_ser d1 msg_start_rst gate).0 in (registe_ser d2 msg_kick_rst gate).0

unfoldable pub registe_app_handlers : Processor → Processor
registe_app_handlers p =
    let p1 = Process.register p msg_kick (disposing handle_kick_req) in
    let p2 = Process.register p1 msg_login (disposing handle_login_req) in
    Process.register p2 msg_start (disposing handle_start_req)

-- Registe and Verify of demo/gate.
unfoldable pub registe_gate_routes : {S : SortedKeys} → Dispatcher S → Dispatcher S
registe_gate_routes d =
    let app = codes "app" in
    let d1 = (registe_ser d msg_login app).0 in
    let d2 = (registe_ser d1 msg_start app).0 in (registe_ser d2 msg_kick app).0

unfoldable pub verify : Msg → Bool
verify msg = true
