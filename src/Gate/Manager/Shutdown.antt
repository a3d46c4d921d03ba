-- ===== src/Gate/Manager/Shutdown.antt =====
-- StopAllSession, and a session that stops before the manager takes it.
use newtbig.Prelude.{
  ℕ, ◌+◌, ◌-◌, ◌*◌, ◌%◌, ◌^◌, ◌<◌, ◌≡◌, ◌≢◌, refl, sym, ◌∙◌, true, false, [], ◌∷◌, Option, none,
  some, arith, nat_eq, Bytes, Assoc, lookup, erase, erase_absent, erase_head, lookup_head, IsUnique,
  length, All,
}
use newtbig.Common.{Msg}
use newtbig.Gate.Session.{Session, SessionMgr, World, on_stop, del_session}
use newtbig.Gate.Session.Effects.{on_stop_stopped}
use newtbig.Gate.Manager.{or_zero, is_too_soon, add, stop_one, stop_loop, stop_all_session}
use newtbig.Gate.Manager.Counting.{IsManager}
use newtbig.Gate.Manager.Login.{add_first}

-- The session of an entry is live, verified, and of the entry's user.
abbrev IsLive : (ℕ → Session) → ℕ × ℕ → Type 0
IsLive f (uid, i) =
    ((f i).stopped ≡ false) × ((f i).vrifyed ≡ true) × ((f i).user_id ≡ uid) × (uid ≢ 0)

-- Every entry has a live session of its own.
abbrev pub AreLive : (ℕ → Session) → Assoc ℕ ℕ → Type 0
AreLive f [] = Unit
AreLive f (e ∷ m) = IsLive f e × All (λ e'. e'.1 ≢ e.1) m × AreLive f m

-- A stop leaves the other sessions as they were.
on_stop_others : (i j : ℕ) (w : World) → j ≢ i → (on_stop i w).session j ≡ w.session j
unfolding on_stop
on_stop_others i j w ne = ground arith

AreLive-after :
    (i : ℕ) (w : World) (m : Assoc ℕ ℕ)
    → All (λ e. e.1 ≢ i) m
    → AreLive w.session m
    → AreLive (on_stop i w).session m
AreLive-after i w [] ne l = tt
AreLive-after i w ((uid, j) ∷ m) ne l =
    (rw (on_stop_others i j w ne.0) l.0, l.1, AreLive-after i w m ne.1 l.2)

-- The manager after the stop of a live session.
on_stop-mgr :
    (uid i : ℕ) (w : World) → IsLive w.session (uid, i) → (on_stop i w).mgr ≡ del_session uid w.mgr
unfolding on_stop
on_stop-mgr uid i w (live, verified, named, nonzero) = rw (sym named) ground arith

-- A removal of the first entry of a map.
del_session_head :
    (uid i : ℕ) (rest : Assoc ℕ ℕ) (m : SessionMgr)
    → uid ≢ 0
    → lookup uid rest ≡ none
    → m.sessions ≡ (uid, i) ∷ rest
    → ((del_session uid m).sessions ≡ rest)
      × ((del_session uid m).count ≡ (m.count + (2 ^ 32 - 1)) % 2 ^ 32)
unfolding del_session
del_session_head uid i rest m nonzero absent e =
    let found : lookup uid m.sessions ≡ some i = rw e (lookup_head uid i rest) in
    let gone : erase uid m.sessions ≡ rest = rw e (erase_head uid i rest absent) in
    (ground arith, ground arith)

-- One round: the entry goes, and the count falls by two.
stop_one_twice :
    (uid i : ℕ) (rest : Assoc ℕ ℕ) (w : World)
    → w.mgr.sessions ≡ (uid, i) ∷ rest
    → lookup uid rest ≡ none
    → IsLive w.session (uid, i)
    → ((stop_one uid i w).mgr.sessions ≡ rest)
      × ((stop_one uid i w).mgr.count
          ≡ ((w.mgr.count + (2 ^ 32 - 1)) % 2 ^ 32 + (2 ^ 32 - 1)) % 2 ^ 32)
unfolding stop_one
stop_one_twice uid i rest w e absent live =
    let (a, b) = del_session_head uid i rest w.mgr live.3 absent e in
    rw (on_stop-mgr uid i w live) rw a rw b (erase_absent uid rest absent, refl)

-- The other entries keep live sessions of their own.
stop_one-AreLive :
    (uid i : ℕ) (rest : Assoc ℕ ℕ) (w : World)
    → AreLive w.session ((uid, i) ∷ rest)
    → AreLive (stop_one uid i w).session rest
unfolding stop_one
stop_one-AreLive uid i rest w l = AreLive-after i w rest l.1 l.2

stop_loop_twice :
    (m : Assoc ℕ ℕ) (w : World)
    → w.mgr.sessions ≡ m
    → IsUnique m
    → AreLive w.session m
    → w.mgr.count < 2 ^ 32
    → ((stop_loop m w).mgr.sessions ≡ [])
      × (((stop_loop m w).mgr.count + 2 * length m) % 2 ^ 32 ≡ w.mgr.count)
unfolding stop_loop
stop_loop_twice [] w e u l b = (e, omega (arith, b))
stop_loop_twice ((uid, i) ∷ rest) w e u l b =
    let (a, c) = stop_one_twice uid i rest w e u.0 l.0 in
    let (x, y) =
      stop_loop_twice rest (stop_one uid i w) a u.1 (stop_one-AreLive uid i rest w l)
        (rw c omega arith) in
    (x, omega (arith, y, c, b))

-- StopAllSession on a manager with the right count, whose entries have live verified sessions of
-- their own, empties the map and takes the count down by twice the number n of the entries: what is
-- left is -n as an int32.
pub stop_all_session_drift :
    (w : World)
    → IsManager w.mgr
    → AreLive w.session w.mgr.sessions
    → ((stop_all_session w).mgr.sessions ≡ [])
      × (((stop_all_session w).mgr.count + length w.mgr.sessions) % 2 ^ 32 ≡ 0)
unfolding stop_all_session
stop_all_session_drift w v l =
    let (x, y) = stop_loop_twice w.mgr.sessions w refl v.unique l (omega (arith, v.counted)) in
    (x, omega (arith, y, v.counted))

on_stop-user_id : (i : ℕ) (w : World) → ((on_stop i w).session i).user_id ≡ (w.session i).user_id
unfolding on_stop
on_stop-user_id i w = ground arith

-- When a session that waits in the channel is stopped, and then its user is not in the manager and
-- its login does not come too soon, adding it puts the stopped session in the manager.
pub add_stopped :
    (marshal : Msg → Option Bytes) (now i : ℕ) (w : World)
    → lookup (w.session i).user_id (on_stop i w).mgr.sessions ≡ none
    → is_too_soon (or_zero (lookup (w.session i).user_id (on_stop i w).mgr.add_map)) now ≡ false
    → (lookup (w.session i).user_id (add marshal now i (on_stop i w)).0.mgr.sessions ≡ some i)
      × (((add marshal now i (on_stop i w)).0.session i).stopped ≡ true)
add_stopped marshal now i w absent late =
    let same = on_stop-user_id i w in
    let (a, b, c) = add_first marshal now i (on_stop i w) (rw same absent) (rw same late) in
    (rw (sym same) a, b ∙ on_stop_stopped i w)
