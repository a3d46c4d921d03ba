-- ===== src/Gate/Run/Limits.antt =====
-- What the turns of a session's `run` come to: its replies are written, and its limits are kept.
use newtbig.Prelude.{
  ℕ, suc, zero, ◌+◌, ◌%◌, ◌^◌, ◌≡◌, ◌≢◌, refl, sym, ◌∙◌, ap, subst, Bool, if◌then◌else◌, true,
  false, List, [], ◌∷◌, ◌++◌, arith, nat_eq, Bytes, length,
}
use mathlib.Core.List.{append_assoc, append-nil}
use newtbig.Common.{Msg}
use newtbig.Options.{Options}
use newtbig.Gate.Session.{Session, World, opened}
use newtbig.Gate.Run.{Turn, out_turn, Callbacks, out_message, turn, run_turn}

-- A running session with an open connection: what is queued for it, and what was written.
pub record Writes (s : Session) (queue written : List Bytes) : Type 0 where
  pub runs : s.running ≡ true
  pub is_opened : s.conn ≡ opened
  pub queued : s.out ≡ queue
  pub wired : s.wire ≡ written

-- A running session of a client that is not verified: what waits to be read, and how much was read
-- since the last tick.
pub record Reads (s : Session) (queue : List Msg) (n : ℕ) : Type 0 where
  pub runs : s.running ≡ true
  pub unverified : s.vrifyed ≡ false
  pub waiting : s.incoming ≡ queue
  pub counted : s.packet_count_1_min ≡ n

-- The data that OnSend takes, in order.
abbrev pub taken : (Bytes → Bool) → List Bytes → List Bytes
taken takes [] = []
taken takes (bytes ∷ rest) = if takes bytes then bytes ∷ taken takes rest else taken takes rest

pub taken-append :
    (takes : Bytes → Bool) (xs ys : List Bytes)
    → taken takes (xs ++ ys) ≡ taken takes xs ++ taken takes ys
taken-append takes [] ys = refl
taken-append takes (x ∷ xs) ys = ground (arith, taken-append takes xs ys)

module _ (cb : Callbacks) (opts : Options) (now i : ℕ) (beats : opts.heart_beat_interval ≢ 0) where
  -- The same turn, a number of times.
  unfoldable pub turns_of : Turn → ℕ → World → World
  turns_of t zero w = w
  turns_of t (suc n) w = turns_of t n (run_turn cb opts t now i w)

  out_turn-Writes :
      (takes : Bytes → Bool) (bytes : Bytes) (rest written : List Bytes) (w : World)
      → Writes (w.session i) (bytes ∷ rest) written
      → Writes
          ((run_turn cb opts (out_turn takes) now i w).session i)
          rest
          (written ++ taken takes (bytes ∷ []))
  unfolding run_turn turn out_message
  out_turn-Writes takes bytes rest written w h = record {
    runs = ground (arith, h.runs, h.is_opened, h.queued);
    is_opened = ground (arith, h.runs, h.is_opened, h.queued);
    queued = ground (arith, h.runs, h.is_opened, h.queued);
    wired = ground (arith, h.runs, h.is_opened, h.queued, h.wired, append-nil written);
  }

  -- For a running session with an open connection and a heartbeat interval other than zero, as many
  -- turns of sending as there are queued replies leave the queue empty, with the session still
  -- running; written, after what was written before and in order, are those of the replies that
  -- OnSend takes, and the others are lost.
  pub out_drains :
      (takes : Bytes → Bool) (queue written : List Bytes) (w : World)
      → Writes (w.session i) queue written
      → Writes
          ((turns_of (out_turn takes) (length queue) w).session i)
          []
          (written ++ taken takes queue)
  unfolding turns_of
  out_drains takes [] written w h = subst (Writes (w.session i) []) (sym (append-nil written)) h
  out_drains takes (bytes ∷ rest) written w h =
      let w' = run_turn cb opts (out_turn takes) now i w in
      subst (Writes ((turns_of (out_turn takes) (length rest) w').session i) [])
        (append_assoc written (taken takes (bytes ∷ [])) (taken takes rest)
          ∙ ap (λ q. written ++ q) (sym (taken-append takes (bytes ∷ []) rest)))
        (out_drains takes rest (written ++ taken takes (bytes ∷ [])) w'
          (out_turn-Writes takes bytes rest written w h))

  -- The session after one message more.
  abbrev counted : List Msg → Session → Session
  counted rest s = record s {
    incoming = rest;
    packet_count = (s.packet_count + 1) % 2 ^ 32;
    packet_count_1_min = s.packet_count_1_min + 1;
  }
