-- ===== src/Process/Silence.antt =====
-- Whether a processor measures at all: Init of process/processor.go switches it off.
use newtbig.Prelude.{ℕ, ◌≡◌, refl, false, List, [], ◌∷◌, some, arith, nat_eq}
use newtbig.Common.{Msg}
use newtbig.Options.{Options}
use newtbig.Process.{Processor, Handler, init, register, handle_msg, record_time}
use newtbig.Process.Handlers.{register_all}
use newtbig.Process.Dump.{Sorter, dump}

-- The messages that a processor handles, with the times that they take.
unfoldable pub handle_all : List (ℕ × Msg) → Processor → Processor
handle_all [] p = p
handle_all ((t, msg) ∷ msgs) p = handle_all msgs (handle_msg t p msg).0

handle_msg_off :
    (t : ℕ) (msg : Msg) (p : Processor) → p.enable_perf ≡ false → (handle_msg t p msg).0 ≡ p
unfolding handle_msg record_time
handle_msg_off t msg p off = ground arith

handle_all_off :
    (msgs : List (ℕ × Msg)) (p : Processor) → p.enable_perf ≡ false → handle_all msgs p ≡ p
unfolding handle_all
handle_all_off [] p off = refl
handle_all_off ((t, msg) ∷ msgs) p off = rw (handle_msg_off t msg p off) (handle_all_off msgs p off)

register_all-enable_perf :
    (regs : List (ℕ × Handler)) (p : Processor)
    → ((register_all regs p).enable_perf ≡ p.enable_perf)
      × ((register_all regs p).perf_recorder ≡ p.perf_recorder)
unfolding register_all register
register_all-enable_perf [] p = (refl, refl)
register_all-enable_perf ((id, h) ∷ regs) p =
    ground (arith, register_all-enable_perf regs (register p id h))

-- After Init with any options and any registrations, a processor that handles any messages records
-- no times, and Dump logs nothing: Init switches the measuring off.
pub init_silences :
    (opts : Options) (regs : List (ℕ × Handler)) (msgs : List (ℕ × Msg)) (sort : Sorter)
    → let p = handle_all msgs (register_all regs (init opts)) in
      (p.perf_recorder ≡ []) × (dump sort p ≡ some [])
unfolding init dump
init_silences opts regs msgs sort =
    let (off, none_yet) = register_all-enable_perf regs (init opts) in
    rw (handle_all_off msgs (register_all regs (init opts)) off) (none_yet, rw off refl)
