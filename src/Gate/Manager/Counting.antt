-- ===== src/Gate/Manager/Counting.antt =====
-- The manager's count against the number of its sessions, one operation at a time.
use newtbig.Prelude.{
  ℕ, ◌+◌, ◌%◌, ◌^◌, ◌≡◌, refl, Bool, List, [], ◌∷◌, Option, none, arith, nat_eq, Bytes, Assoc,
  lookup, lookup-erase, IsUnique, insert-IsUnique, erase-IsUnique, length, length-insert,
  length-erase, Bool-cases, Option-cases, inl, inr,
}
use newtbig.Common.{Msg}
use newtbig.Common.Codes.{msg_kick_rst}
use newtbig.Gate.Session.{
  SessionMgr, World, put_session, on_stop, del_session, send_sign, broadcast, msg_in,
}
use newtbig.Gate.Session.Effects.{lookup-del_session}
use newtbig.Gate.Manager.{
  or_zero, is_too_soon, new_mgr, add, replace_old, store, take_added, run_once, broat_cast,
  broat_cast_loop,
}

-- The count is `k` above the number of sessions, as an int32.
pub record HasCount (k : ℕ) (m : SessionMgr) : Type 0 where
  pub unique : IsUnique m.sessions
  pub counted : m.count ≡ (length m.sessions + k) % 2 ^ 32

abbrev pub IsManager : SessionMgr → Type 0
IsManager = HasCount 0

pub new_mgr-IsManager : IsManager new_mgr
new_mgr-IsManager = record { unique = tt; counted = refl }

pub del_session-HasCount :
    (k uid : ℕ) (m : SessionMgr) → HasCount k m → HasCount k (del_session uid m)
unfolding del_session
del_session-HasCount k uid m v = record {
  unique = ground (arith, v.unique, erase-IsUnique uid m.sessions v.unique);
  counted = ground (arith, v.counted, length-erase uid m.sessions v.unique);
}

-- Stopping a session keeps the count as it stands.
pub on_stop-HasCount : (k i : ℕ) (w : World) → HasCount k w.mgr → HasCount k (on_stop i w).mgr
unfolding on_stop
on_stop-HasCount k i w v = elim (Bool-cases (w.session i).stopped) [
  | inl s ↦ rw (s, on_stop) v
  | inr s ↦ elim (Bool-cases (w.session i).vrifyed) [
    | inl f ↦ rw (s, f, on_stop) (del_session-HasCount k (w.session i).user_id w.mgr v)
    | inr f ↦ rw (s, f, on_stop) v
  ]
]

-- What is not in the manager's map is not put there by a stop.
pub on_stop_absent :
    (i uid : ℕ) (w : World)
    → lookup uid w.mgr.sessions ≡ none
    → lookup uid (on_stop i w).mgr.sessions ≡ none
unfolding on_stop
on_stop_absent i uid w h = ground (arith, lookup-del_session (w.session i).user_id uid w.mgr)

replace_old-HasCount :
    (uid : ℕ) (w : World)
    → IsManager w.mgr
    → HasCount 1 (replace_old uid w).mgr × (lookup uid (replace_old uid w).mgr.sessions ≡ none)
unfolding replace_old
replace_old-HasCount uid w v = elim (Option-cases (lookup uid w.mgr.sessions)) [
  | inl e ↦
      rw (e, replace_old) (record { unique = v.unique; counted = omega (arith, v.counted) }, e)
  | inr (old, e) ↦
      rw (e, replace_old)
        (
          on_stop-HasCount 1 old _ (record {
            unique = erase-IsUnique uid w.mgr.sessions v.unique;
            counted = ground (arith, v.counted, length-erase uid w.mgr.sessions v.unique);
          }),
          on_stop_absent old uid _ (ground (arith, lookup-erase uid uid w.mgr.sessions)),
        )
]

store-IsManager :
    (uid i now : ℕ) (w : World)
    → HasCount 1 w.mgr
    → lookup uid w.mgr.sessions ≡ none
    → IsManager (store uid i now w).0.mgr
unfolding store
store-IsManager uid i now w v e =
    rw (e, store)
      (record {
        unique = insert-IsUnique uid i w.mgr.sessions v.unique;
        counted = ground (arith, v.counted, length-insert uid i w.mgr.sessions);
      })

module _ (marshal : Msg → Option Bytes) where
  -- Adding a session keeps the count right: on a first login, when an old session of the user gives
  -- way, and when the login is refused as too soon.
  pub add-IsManager :
      (now i : ℕ) (w : World) → IsManager w.mgr → IsManager (add marshal now i w).0.mgr
  unfolding add
  add-IsManager now i w v =
      let uid = (w.session i).user_id in
      elim (Bool-cases (is_too_soon (or_zero (lookup uid w.mgr.add_map)) now)) [
        | inl soon ↦ rw (soon, add) (on_stop-HasCount 0 i w v)
        | inr late ↦
            let (c, e) = replace_old-HasCount uid w v in
            rw (late, add) (store-IsManager uid i now _ c e)
      ]

  pub run_once-IsManager :
      (now : ℕ) (w : World) → IsManager w.mgr → IsManager (run_once marshal now w).mgr
  unfolding run_once
  run_once-IsManager now w v = go w.mgr.add_chan
    where
      go : (queue : List ℕ) → IsManager (take_added marshal now queue w).mgr
      go [] = v
      go (i ∷ rest) = add-IsManager now i _ (record { unique = v.unique; counted = v.counted })

  broadcast-IsManager :
      (check_route : ℕ → Bool) (i : ℕ) (msg : Msg) (w : World)
      → IsManager w.mgr
      → IsManager (broadcast marshal check_route i msg w).0.mgr
  unfolding broadcast
  broadcast-IsManager check_route i msg w v =
      let kicked = (send_sign marshal (w.session i) msg_kick_rst).0 in
      ground (arith, on_stop-HasCount 0 i (put_session i kicked w) v)

  broat_cast_loop-IsManager :
      (check_route : ℕ → Bool) (msg : Msg) (m : Assoc ℕ ℕ) (w : World)
      → IsManager w.mgr
      → IsManager (broat_cast_loop marshal check_route msg m w).mgr
  unfolding broat_cast_loop
  broat_cast_loop-IsManager check_route msg [] w v = v
  broat_cast_loop-IsManager check_route msg ((uid, i) ∷ rest) w v =
      broat_cast_loop-IsManager check_route msg rest _ (broadcast-IsManager check_route i msg w v)

  pub broat_cast-IsManager :
      (check_route : ℕ → Bool) (msg : Msg) (w : World)
      → IsManager w.mgr
      → IsManager (broat_cast marshal check_route msg w).mgr
  unfolding broat_cast
  broat_cast-IsManager check_route msg w v =
      broat_cast_loop-IsManager check_route msg w.mgr.sessions w v

  pub msg_in-IsManager :
      (verify : Msg → Bool) (hb_back : Bool) (now i : ℕ) (msg : Msg) (w : World)
      → IsManager w.mgr
      → IsManager (msg_in marshal verify hb_back now i msg w).0.mgr
  unfolding msg_in
  msg_in-IsManager verify hb_back now i msg w v = record {
    unique = ground (arith, v.unique);
    counted = ground (arith, v.counted);
  }
