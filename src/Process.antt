-- ===== src/Process.antt =====
-- The message processor, process/processor.go, with its times of process/perf_recorder.go.
-- Protobuf and the handlers are parameters; a handler's panic is a value. Durations are in
-- nanoseconds and not negative.
pub mod Handlers
pub mod Times
pub mod Dump
pub mod Silence
use newtbig.Prelude.{
  ℕ, ◌+◌, ◌%◌, ◌^◌, Bool, true, false, not, List, [], ◌∷◌, Option, none, some, ltb, nat_eq,
  if◌then◌else◌, Bytes, Assoc, lookup, insert, length, Result, ok, err,
}
use newtbig.Common.{Msg}
use newtbig.Options.{Options}

-- What a call of a handler does: it returns a message or nil, or it panics.
pub data Outcome : Type 0 where
  returned : Option Msg → Outcome
  panicked : Outcome

-- A registered DisposeFunc, or nil. A call of nil panics.
pub data Handler : Type 0 where
  nil_handler : Handler
  dispose : (Msg → Outcome) → Handler

pub record PerfRecorder : Type 0 where
  pub msg_id : ℕ
  pub total_time : ℕ  -- int64, as its bit pattern
  pub count : ℕ  -- int32, as its bit pattern
  pub max_time : ℕ

pub record Processor : Type 0 where
  pub msg_infos : Assoc ℕ Handler
  pub perf_recorder : Assoc ℕ PerfRecorder
  pub enable_perf : Bool
  pub max_packet_size : ℕ

unfoldable pub init : Options → Processor
init opts = record {
  msg_infos = [];
  perf_recorder = [];
  enable_perf = false;
  max_packet_size = opts.max_packet_size % 2 ^ 32;
}

-- A handler that is registered is not replaced.
unfoldable pub register : Processor → ℕ → Handler → Processor
register p msg_id handler = elim (lookup msg_id p.msg_infos) [
  | some known ↦ p
  | none ↦ record p { msg_infos = insert msg_id handler p.msg_infos }
]

unfoldable pub get_msg_info : Processor → ℕ → Option Handler
get_msg_info p id = lookup id p.msg_infos

abbrev pub new_recorder : ℕ → PerfRecorder
new_recorder id = record { msg_id = id; total_time = 0; count = 0; max_time = 0 }

abbrev pub recorder_or_new : ℕ → Option PerfRecorder → PerfRecorder
recorder_or_new id none = new_recorder id
recorder_or_new id (some r) = r

abbrev pub add_time : ℕ → PerfRecorder → PerfRecorder
add_time dur r = record r {
  max_time = if ltb r.max_time dur then dur else r.max_time;
  count = (r.count + 1) % 2 ^ 32;
  total_time = (r.total_time + dur) % 2 ^ 64;
}

-- Record, with the time that has passed.
unfoldable pub record_time : ℕ → ℕ → Processor → Processor
record_time dur id p = if not p.enable_perf then p else record p {
  perf_recorder =
      insert id (add_time dur (recorder_or_new id (lookup id p.perf_recorder))) p.perf_recorder;
}

-- What HandleMsg does with the outcome: a panic is recovered, and its time is not recorded.
unfoldable pub settle : ℕ → ℕ → Processor → Outcome → Processor × Option Msg
settle dur id p (returned reply) = (record_time dur id p, reply)
settle dur id p panicked = (p, none)

abbrev pub call_handler : Handler → Msg → Outcome
call_handler nil_handler msg = panicked
call_handler (dispose f) msg = f msg

-- HandleMsg: a message that no handler is registered for has no reply, and its time is recorded.
unfoldable pub handle_msg : ℕ → Processor → Msg → Processor × Option Msg
unfolding settle
handle_msg dur p msg = elim (lookup msg.id p.msg_infos) [
  | none ↦ settle dur msg.id p (returned none)
  | some handler ↦ settle dur msg.id p (call_handler handler msg)
]

pub data ProcessError : Type 0 where
  msg_is_nil marshal_failed data_too_short unmarshal_failed : ProcessError

-- Marshal and Unmarshal: data that is too long is logged only.
unfoldable pub marshal : (Msg → Option Bytes) → Option Msg → Result ProcessError Bytes
marshal proto none = err msg_is_nil
marshal proto (some msg) = elim (proto msg) [ none ↦ err marshal_failed | some bytes ↦ ok bytes ]

unfoldable pub unmarshal : (Bytes → Option Msg) → Bytes → Result ProcessError Msg
unmarshal proto bytes =
    if ltb (length bytes) 2
    then err data_too_short
    else elim (proto bytes) [ none ↦ err unmarshal_failed | some msg ↦ ok msg ]
