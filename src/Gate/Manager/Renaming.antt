-- ===== src/Gate/Manager/Renaming.antt =====
-- A session that is verified a second time, with another user.
use newtbig.Prelude.{
  ℕ, ◌+◌, ◌%◌, ◌^◌, ◌≡◌, ◌≢◌, refl, sym, ◌∙◌, ap, subst, true, false, Bool, [], ◌∷◌, ◌++◌, Option,
  none, some, arith, nat_eq, ◌==◌, if◌then◌else◌, Bytes, lookup, insert, lookup-insert,
}
use newtbig.Common.{Msg}
use newtbig.Common.Codes.{msg_verify, msg_verify_rst_suc}
use newtbig.Gate.Session.{Session, World, put_session, on_stop, msg_in, send_sign}
use newtbig.Gate.Session.Effects.{lookup-del_session, on_stop_stopped}
use newtbig.Gate.Manager.{or_zero, is_too_soon, add, run_once, take_added, replace_old, store}

-- What the manager says to a session leaves who it is.
send_sign_named :
    (marshal : Msg → Option Bytes) (s : Session) (id : ℕ)
    → ((send_sign marshal s id).0.user_id ≡ s.user_id)
      × ((send_sign marshal s id).0.vrifyed ≡ s.vrifyed)
      × ((send_sign marshal s id).0.stopped ≡ s.stopped)
unfolding send_sign
send_sign_named marshal s id = (ground arith, ground arith, ground arith)

module _ (marshal : Msg → Option Bytes) (now i : ℕ) (w : World)
    (absent : lookup (w.session i).user_id w.mgr.sessions ≡ none)
    (late : is_too_soon (or_zero (lookup (w.session i).user_id w.mgr.add_map)) now ≡ false) where
  replaced :
      replace_old (w.session i).user_id w
      ≡ record w { mgr = record w.mgr { count = (w.mgr.count + 1) % 2 ^ 32 } }
  unfolding replace_old
  replaced = rw (absent, replace_old) refl

  store_absent :
      (uid : ℕ) (x : World)
      → lookup uid x.mgr.sessions ≡ none
      → (store uid i now x).0 ≡ record x {
        mgr = record x.mgr {
          sessions = insert uid i x.mgr.sessions;
          add_map = insert uid now x.mgr.add_map;
        };
      }
  unfolding store
  store_absent uid x e = rw (e, store) refl

  -- The world after a first login.
  abbrev welcomed : World
  welcomed =
      let uid = (w.session i).user_id in
      record (put_session i (send_sign marshal (w.session i) msg_verify_rst_suc).0 w) {
        mgr = record w.mgr {
          sessions = insert uid i w.mgr.sessions;
          count = (w.mgr.count + 1) % 2 ^ 32;
          add_map = insert uid now w.mgr.add_map;
        };
      }

  add_absent : (add marshal now i w).0 ≡ welcomed
  unfolding add
  add_absent = rw (late, add) (rw replaced (store_absent (w.session i).user_id _ absent))

run_once_single :
    (marshal : Msg → Option Bytes) (now i : ℕ) (w : World)
    → w.mgr.add_chan ≡ i ∷ []
    → run_once marshal now w
      ≡ (add marshal now i (record w { mgr = record w.mgr { add_chan = [] } })).0
unfolding run_once take_added
run_once_single marshal now i w e = rw (e, run_once, take_added) refl

-- A stop of a live verified session takes out its own user alone.
on_stop-lookup :
    (i uid : ℕ) (w : World)
    → (w.session i).stopped ≡ false
    → (w.session i).vrifyed ≡ true
    → (w.session i).user_id ≢ 0
    → lookup uid (on_stop i w).mgr.sessions
      ≡ (if (w.session i).user_id == uid then none else lookup uid w.mgr.sessions)
unfolding on_stop
on_stop-lookup i uid w live verified named =
    ground (arith, lookup-del_session (w.session i).user_id uid w.mgr)

-- The world in which a session's client is verified as another user, and the manager takes it.
abbrev pub renamed : (Msg → Option Bytes) → (Msg → Bool) → Bool → ℕ → ℕ → Msg → World → World
renamed marshal verify hb_back now i msg w =
    run_once marshal now (msg_in marshal verify hb_back now i msg w).0

module _ (marshal : Msg → Option Bytes) (verify : Msg → Bool) (hb_back : Bool) (now i : ℕ)
    (msg : Msg) (w : World) where
  -- The session as the client's second verification leaves it.
  abbrev again : World
  again = record (put_session i (record (w.session i) { user_id = msg.uid; vrifyed = true }) w) {
    mgr = record w.mgr { add_chan = [] };
  }

  msg_in-again :
      msg.id ≡ msg_verify
      → msg.uid ≢ 0
      → verify msg ≡ true
      → (msg_in marshal verify hb_back now i msg w).0
        ≡ record again { mgr = record w.mgr { add_chan = w.mgr.add_chan ++ i ∷ [] } }
  unfolding msg_in
  msg_in-again verifying named accepted = ground arith

  renamed-add :
      msg.id ≡ msg_verify
      → msg.uid ≢ 0
      → verify msg ≡ true
      → w.mgr.add_chan ≡ []
      → renamed marshal verify hb_back now i msg w ≡ (add marshal now i again).0
  renamed-add verifying named accepted empty =
      ap (run_once marshal now) (msg_in-again verifying named accepted)
      ∙ run_once_single marshal now i _ (ap (λ c. c ++ i ∷ []) empty)

  again-user_id : (again.session i).user_id ≡ msg.uid
  again-user_id = ground arith

  module _ (verifying : msg.id ≡ msg_verify) (named : msg.uid ≢ 0) (accepted : verify msg ≡ true)
      (empty : w.mgr.add_chan ≡ []) (absent : lookup msg.uid w.mgr.sessions ≡ none)
      (late : is_too_soon (or_zero (lookup msg.uid w.mgr.add_map)) now ≡ false) where
    -- What the manager and the session are after it.
    renamed_stands :
        let w' = renamed marshal verify hb_back now i msg w in
        (w'.mgr.sessions ≡ insert msg.uid i w.mgr.sessions)
        × ((w'.session i).user_id ≡ msg.uid)
        × ((w'.session i).vrifyed ≡ true)
        × ((w'.session i).stopped ≡ (w.session i).stopped)
    renamed_stands =
        let now_named = again-user_id in
        let unheld : lookup (again.session i).user_id again.mgr.sessions ≡ none =
          subst (λ n. lookup n w.mgr.sessions ≡ none) (sym now_named) absent in
        let in_time : is_too_soon (or_zero (lookup (again.session i).user_id again.mgr.add_map)) now
            ≡ false =
          subst (λ n. is_too_soon (or_zero (lookup n w.mgr.add_map)) now ≡ false) (sym now_named)
            late in
        let greeted = send_sign_named marshal (again.session i) msg_verify_rst_suc in
        let e =
          renamed-add verifying named accepted empty
          ∙ add_absent marshal now i again unheld in_time in
        subst
          (λ w'.
            (w'.mgr.sessions ≡ insert msg.uid i w.mgr.sessions)
            × ((w'.session i).user_id ≡ msg.uid)
            × ((w'.session i).vrifyed ≡ true)
            × ((w'.session i).stopped ≡ (w.session i).stopped))
          (sym e)
          (
            ap (λ n. insert n i w.mgr.sessions) now_named,
            ground (arith, greeted.0),
            ground (arith, greeted.1),
            ground (arith, greeted.2),
          )

    -- For a live session that the manager holds under a user, with nothing waiting in its channel:
    -- when the session's client is verified as another user, who is not there and does not come too
    -- soon, and the manager takes it, the manager holds the session under both users, and the
    -- session is the second's; and when the session then stops, the manager still holds it,
    -- stopped, under the first.
    pub renamed_leaves :
        (uid : ℕ)
        → uid ≢ msg.uid
        → lookup uid w.mgr.sessions ≡ some i
        → (w.session i).stopped ≡ false
        → let w1 = renamed marshal verify hb_back now i msg w in
          let w2 = on_stop i w1 in
          (lookup uid w1.mgr.sessions ≡ some i)
          × (lookup msg.uid w1.mgr.sessions ≡ some i)
          × ((w1.session i).user_id ≡ msg.uid)
          × ((w2.session i).stopped ≡ true)
          × (lookup msg.uid w2.mgr.sessions ≡ none)
          × (lookup uid w2.mgr.sessions ≡ some i)
    renamed_leaves uid other held live =
        let w1 = renamed marshal verify hb_back now i msg w in
        let (entries, name, verified, alive) = renamed_stands in
        let here : lookup uid w1.mgr.sessions ≡ some i =
          rw entries ground (arith, lookup-insert msg.uid uid i w.mgr.sessions) in
        let there : lookup msg.uid w1.mgr.sessions ≡ some i =
          rw entries ground (arith, lookup-insert msg.uid msg.uid i w.mgr.sessions) in
        let stop =
          λ (u : ℕ). on_stop-lookup i u w1 (alive ∙ live) verified (λ z. named (sym name ∙ z)) in
        (
          here,
          there,
          name,
          on_stop_stopped i w1,
          stop msg.uid ∙ ground (arith, name),
          stop uid ∙ ground (arith, name, here),
        )
