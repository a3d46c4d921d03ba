-- ===== src/Gate/Manager.antt =====
-- The session manager, gate/session/session_mgr.go, over the world of Gate.Session. Times are in
-- milliseconds. `sync.Map.Range` goes over the entries that stand in the map when it starts.
pub mod Counting
pub mod Login
pub mod Shutdown
pub mod Renaming
use newtbig.Prelude.{
  ℕ, suc, ◌+◌, ◌-◌, ◌%◌, ◌^◌, Bool, true, false, not, ◌&&◌, List, [], ◌∷◌, ◌++◌, Option, none, some,
  ltb, ◌==◌, nat_eq, if◌then◌else◌, Bytes, Assoc, lookup, insert, erase, is_some,
}
use newtbig.Common.{Msg}
use newtbig.Common.Codes.{msg_verify_rst_suc}
use newtbig.Gate.Session.{
  Session, SessionMgr, World, put_session, on_stop, del_session, send_sign, broadcast, rpc_msg,
}

abbrev pub new_mgr : SessionMgr
new_mgr = record { sessions = []; count = 0; add_chan = []; add_map = [] }

-- Go's zero value for a missing key of `map[uint64]int64`.
abbrev pub or_zero : Option ℕ → ℕ
or_zero none = 0
or_zero (some t) = t

-- A user may log in again three seconds after the last login.
abbrev pub is_too_soon : ℕ → ℕ → Bool
is_too_soon last now = not (last == 0) && ltb (now - last) 3000

unfoldable pub get_session : ℕ → World → Option ℕ
get_session uid w = lookup uid w.mgr.sessions

-- The old session of a user gives way to the new one, or the count goes up.
replace_old : ℕ → World → World
replace_old uid w = elim (lookup uid w.mgr.sessions) [
  | some old ↦ on_stop old (record w { mgr = record w.mgr { sessions = erase uid w.mgr.sessions } })
  | none ↦ record w { mgr = record w.mgr { count = (w.mgr.count + 1) % 2 ^ 32 } }
]

-- LoadOrStore, and the time of the login. The flag says whether the session was stored.
store : ℕ → ℕ → ℕ → World → World × Bool
store uid i now w = elim (lookup uid w.mgr.sessions) [
  | some other ↦ (record w { mgr = record w.mgr { add_map = insert uid now w.mgr.add_map } }, false)
  | none ↦ (
    record w {
      mgr = record w.mgr {
        sessions = insert uid i w.mgr.sessions;
        add_map = insert uid now w.mgr.add_map;
      };
    },
    true,
  )
]

module _ (marshal : Msg → Option Bytes) where
  unfoldable pub add : ℕ → ℕ → World → World × Bool
  unfolding replace_old store
  add now i w =
      let uid = (w.session i).user_id in
      if is_too_soon (or_zero (lookup uid w.mgr.add_map)) now
      then (on_stop i w, false)
      else (let w' = replace_old uid w in
          store uid i now
            (put_session i (send_sign marshal (w'.session i) msg_verify_rst_suc).0 w'))

  -- One turn of `run`: it takes one session from the channel.
  unfoldable pub take_added : ℕ → List ℕ → World → World
  take_added now [] w = w
  take_added now (i ∷ rest) w = (add now i (record w { mgr = record w.mgr { add_chan = rest } })).0

  unfoldable pub run_once : ℕ → World → World
  unfolding take_added
  run_once now w = take_added now w.mgr.add_chan w

  broat_cast_loop : (ℕ → Bool) → Msg → Assoc ℕ ℕ → World → World
  broat_cast_loop check_route msg [] w = w
  broat_cast_loop check_route msg ((uid, i) ∷ rest) w =
      broat_cast_loop check_route msg rest (broadcast marshal check_route i msg w).0

  -- BroatCast logs the errors of the sessions.
  unfoldable pub broat_cast : (ℕ → Bool) → Msg → World → World
  unfolding broat_cast_loop
  broat_cast check_route msg w = broat_cast_loop check_route msg w.mgr.sessions w

  -- Receive: a message for a user that is not here is dropped.
  unfoldable pub receive : Msg → World → World × Bool
  receive msg w = elim (get_session msg.uid w) [
    | none ↦ (w, false)
    | some i ↦ let (s, failed) = rpc_msg marshal (w.session i) msg in (put_session i s w, failed)
  ]

unfoldable pub stop_session : ℕ → World → World
unfolding get_session
stop_session uid w =
    if uid == 0 then w else elim (get_session uid w) [ none ↦ w | some i ↦ on_stop i w ]

-- DelSession, called by the server's proxy.
unfoldable pub drop_session : ℕ → World → World
drop_session uid w = record w { mgr = del_session uid w.mgr }

-- One round of StopAllSession.
stop_one : ℕ → ℕ → World → World
stop_one uid i w =
    let w' = on_stop i w in
    record w' {
      mgr = record w'.mgr {
        sessions = erase uid w'.mgr.sessions;
        count = (w'.mgr.count + (2 ^ 32 - 1)) % 2 ^ 32;
      };
    }

stop_loop : Assoc ℕ ℕ → World → World
unfolding stop_one
stop_loop [] w = w
stop_loop ((uid, i) ∷ rest) w = stop_loop rest (stop_one uid i w)

unfoldable pub stop_all_session : World → World
unfolding stop_loop
stop_all_session w = stop_loop w.mgr.sessions w
