-- ===== src/Gate/Handle.antt =====
-- The handler that a gate's start registers, gate/handle/handler.go and gate/handle/register.go. Its
-- first argument is a session, or something else, and then the type assertion panics.
use newtbig.Prelude.{[], Option, none, some, Bytes}
use newtbig.Common.{Msg}
use newtbig.Common.Codes.{msg_heartbeat}
use newtbig.Process.{Processor, Outcome, panicked, returned, dispose}
use newtbig.Process
use newtbig.Gate.Session.{Session, send_msg}

abbrev beat : Msg
beat = record { seq = 0; id = msg_heartbeat; body = []; key = 0; uid = 0 }

-- The session after the handler, and what the handler comes to.
unfoldable pub handle_heart_beat_req :
    (Msg → Option Bytes) → Option Session → Msg → Option Session × Outcome
handle_heart_beat_req marshal none req = (none, panicked)
handle_heart_beat_req marshal (some s) req =
    (some (send_msg marshal s beat).0, returned (some beat))

-- Register, for a processor that hands its handlers this argument.
unfoldable pub register : (Msg → Option Bytes) → Option Session → Processor → Processor
register marshal session p =
    Process.register p msg_heartbeat
      (dispose (λ req. (handle_heart_beat_req marshal session req).1))
