-- ===== src/Gate/Manager/Login.antt =====
-- What a second login of a user does.
use newtbig.Prelude.{
  ℕ, ◌+◌, ◌%◌, ◌^◌, ◌≡◌, ◌≢◌, refl, ◌∙◌, true, false, Option, none, some, arith, nat_eq, Bytes,
  lookup, lookup-insert, lookup-erase,
}
use newtbig.Common.{Msg}
use newtbig.Common.Codes.{msg_verify_rst_suc}
use newtbig.Gate.Session.{Session, World, put_session, on_stop, send_sign}
use newtbig.Gate.Session.Effects.{lookup-del_session, on_stop_stopped}
use newtbig.Gate.Manager.{or_zero, is_too_soon, add, replace_old, store}
use newtbig.Gate.Manager.Counting.{on_stop_absent}

store_fresh :
    (uid i now : ℕ) (w : World)
    → lookup uid w.mgr.sessions ≡ none
    → let w' = (store uid i now w).0 in
      (lookup uid w'.mgr.sessions ≡ some i)
      × (lookup uid w'.mgr.add_map ≡ some now)
      × (w'.session ≡ w.session)
      × (w'.mgr.count ≡ w.mgr.count)
unfolding store
store_fresh uid i now w e =
    rw (e, store)
      (
        ground (arith, lookup-insert uid uid i w.mgr.sessions),
        ground (arith, lookup-insert uid uid now w.mgr.add_map),
        refl,
        refl,
      )

send_sign_stopped :
    (marshal : Msg → Option Bytes) (s : Session) (id : ℕ)
    → (send_sign marshal s id).0.stopped ≡ s.stopped
unfolding send_sign
send_sign_stopped marshal s id = ground arith

-- The world in which a login that comes in time is stored.
abbrev greeted : (Msg → Option Bytes) → ℕ → World → World
greeted marshal i w =
    let w' = replace_old (w.session i).user_id w in
    put_session i (send_sign marshal (w'.session i) msg_verify_rst_suc).0 w'

add_late :
    (marshal : Msg → Option Bytes) (now i : ℕ) (w : World)
    → is_too_soon (or_zero (lookup (w.session i).user_id w.mgr.add_map)) now ≡ false
    → add marshal now i w ≡ store (w.session i).user_id i now (greeted marshal i w)
unfolding add
add_late marshal now i w late = rw (late, add)

replace_old_stops :
    (uid old : ℕ) (w : World)
    → lookup uid w.mgr.sessions ≡ some old
    → (lookup uid (replace_old uid w).mgr.sessions ≡ none)
      × (((replace_old uid w).session old).stopped ≡ true)
unfolding replace_old
replace_old_stops uid old w held =
    rw (held, replace_old)
      (
        on_stop_absent old uid _ (ground (arith, lookup-erase uid uid w.mgr.sessions)),
        on_stop_stopped old _,
      )

-- A first login in time: the session stands in the manager, and the count goes up.
pub add_first :
    (marshal : Msg → Option Bytes) (now i : ℕ) (w : World)
    → lookup (w.session i).user_id w.mgr.sessions ≡ none
    → is_too_soon (or_zero (lookup (w.session i).user_id w.mgr.add_map)) now ≡ false
    → let w' = (add marshal now i w).0 in
      (lookup (w.session i).user_id w'.mgr.sessions ≡ some i)
      × ((w'.session i).stopped ≡ (w.session i).stopped)
      × (w'.mgr.count ≡ (w.mgr.count + 1) % 2 ^ 32)
unfolding replace_old
add_first marshal now i w absent late =
    let uid = (w.session i).user_id in
    let (a, b, c, d) = store_fresh uid i now (greeted marshal i w) (ground arith) in
    rw (add_late marshal now i w late) (
      a,
      rw c (
          ground
            (arith, send_sign_stopped marshal ((replace_old uid w).session i) msg_verify_rst_suc)),
      d ∙ ground arith,
    )

module _ (marshal : Msg → Option Bytes) (now i old : ℕ) (w : World) where
  -- A login that comes too soon, of a live verified session whose user is in the manager with
  -- another session, stops the new session and takes the user out of the manager; the older session
  -- is left as it was, so the manager has lost it.
  pub add_too_soon :
      i ≢ old
      → (w.session i).stopped ≡ false
      → (w.session i).vrifyed ≡ true
      → (w.session i).user_id ≢ 0
      → lookup (w.session i).user_id w.mgr.sessions ≡ some old
      → is_too_soon (or_zero (lookup (w.session i).user_id w.mgr.add_map)) now ≡ true
      → let w' = (add marshal now i w).0 in
        (lookup (w.session i).user_id w'.mgr.sessions ≡ none)
        × (w'.session old ≡ w.session old)
        × ((w'.session i).stopped ≡ true)
  unfolding add on_stop
  add_too_soon ne live verified named held soon = (
    ground (arith, lookup-del_session (w.session i).user_id (w.session i).user_id w.mgr),
    ground arith,
    ground arith,
  )

  -- A login that does not come too soon takes the place of the user's older session, if that is
  -- another one: the older one is stopped, the new one stands in the manager, and the time of the
  -- login is kept.
  pub add_replaces :
      i ≢ old
      → lookup (w.session i).user_id w.mgr.sessions ≡ some old
      → is_too_soon (or_zero (lookup (w.session i).user_id w.mgr.add_map)) now ≡ false
      → let w' = (add marshal now i w).0 in
        (lookup (w.session i).user_id w'.mgr.sessions ≡ some i)
        × ((w'.session old).stopped ≡ true)
        × (lookup (w.session i).user_id w'.mgr.add_map ≡ some now)
  add_replaces ne held late =
      let uid = (w.session i).user_id in
      let (gone, over) = replace_old_stops uid old w held in
      let (a, b, c, d) = store_fresh uid i now (greeted marshal i w) gone in
      rw (add_late marshal now i w late) (a, rw c (ground (arith, over)), b)
