-- ===== src/Gate/Session/Effects.antt =====
-- What the operations of a session do to the world.
use newtbig.Prelude.{
  ℕ, ◌≡◌, ◌≢◌, Bool, true, false, [], ◌∷◌, ◌++◌, Option, none, some, arith, ◌==◌, nat_eq,
  if◌then◌else◌, Bytes, lookup, Bool-cases, Option-cases, inl, inr, fun_ext, lookup-erase, ◌⊎◌,
}
use newtbig.Common.{Msg}
use newtbig.Common.Codes.{
  msg_kick, msg_verify, msg_heartbeat, msg_reg_broat_cast, msg_disreg_broat_cast,
}
use newtbig.Gate.Session.{
  forward, Session, SessionMgr, World, update, on_stop, del_session, send_msg, msg_in, is_open,
  own_msg,
}

-- A world is given by its parts.
update_same : (f : ℕ → Session) (i : ℕ) → update f i (f i) ≡ f
update_same f i = fun_ext λ j. ground arith

module _ (marshal : Msg → Option Bytes) (verify : Msg → Bool) (hb_back : Bool) (now i : ℕ) where
  -- For a session that is not verified, every message of its client but a verification changes
  -- nothing, is passed on to no server, and gets no answer.
  pub msg_in_unverified :
      (msg : Msg) (w : World)
      → (w.session i).vrifyed ≡ false
      → msg.id ≢ msg_verify
      → msg_in marshal verify hb_back now i msg w ≡ (w, false)
  unfolding msg_in
  msg_in_unverified msg w u h = ground arith

  -- A verification with a user id that the callback refuses leaves the session unverified, queues
  -- no reply to its client, calls no server, and leaves the manager as it was.
  pub msg_in_refused :
      (msg : Msg) (w : World)
      → msg.id ≡ msg_verify
      → msg.uid ≢ 0
      → verify msg ≡ false
      → let w' = (msg_in marshal verify hb_back now i msg w).0 in
        ((w'.session i).vrifyed ≡ false)
        × ((w'.session i).out ≡ (w.session i).out)
        × (w'.calls ≡ w.calls)
        × (w'.mgr ≡ w.mgr)
  unfolding msg_in
  msg_in_refused msg w h u v = (ground arith, ground arith, ground arith, ground arith)

-- Stopping a session twice is stopping it once: there is no second kick, and no second removal from
-- the manager.
pub on_stop_twice : (i : ℕ) (w : World) → on_stop i (on_stop i w) ≡ on_stop i w
unfolding on_stop
on_stop_twice i w = ground arith

pub on_stop_stopped : (i : ℕ) (w : World) → ((on_stop i w).session i).stopped ≡ true
unfolding on_stop
on_stop_stopped i w = ground arith

-- The manager's map after DelSession.
pub lookup-del_session :
    (uid j : ℕ) (m : SessionMgr)
    → lookup j (del_session uid m).sessions
      ≡ (if uid == 0 then lookup j m.sessions else if uid == j then none else lookup j m.sessions)
unfolding del_session
lookup-del_session uid j m = ground (arith, lookup-erase uid j m.sessions)

-- The first stop of a verified session with a user id closes and unverifies it, takes its user out
-- of the manager, and sends one call to the servers: the user's kick.
pub on_stop_closes :
    (i : ℕ) (w : World)
    → (w.session i).stopped ≡ false
    → (w.session i).vrifyed ≡ true
    → (w.session i).user_id ≢ 0
    → (((on_stop i w).session i).stopped ≡ true)
      × (((on_stop i w).session i).vrifyed ≡ false)
      × (is_open ((on_stop i w).session i).conn ≡ false)
      × (lookup (w.session i).user_id (on_stop i w).mgr.sessions ≡ none)
      × ((on_stop i w).calls ≡ w.calls ++ own_msg msg_kick (w.session i) ∷ [])
unfolding on_stop
on_stop_closes i w h v n = (
  ground arith,
  ground arith,
  ground arith,
  ground (arith, lookup-del_session (w.session i).user_id (w.session i).user_id w.mgr),
  ground arith,
)

-- SendMsg queues nothing, or one message: then the session is verified, its connection is open, its
-- `run` has not returned, and the message carries the session's own user id.
pub send_msg_stamped :
    (marshal : Msg → Option Bytes) (s : Session) (msg : Msg)
    → let t = (send_msg marshal s msg).0 in
      (t.out ≡ s.out)
      ⊎ ((bytes : Bytes) × (t.out ≡ s.out ++ bytes ∷ [])
          × (marshal (record msg { uid = s.user_id }) ≡ some bytes)
          × (s.vrifyed ≡ true)
          × (is_open s.conn ≡ true)
          × (s.running ≡ true))
unfolding send_msg
send_msg_stamped marshal s msg = elim (Option-cases (marshal (record msg { uid = s.user_id }))) [
  | inl e ↦ inl (ground arith)
  | inr (bytes, e) ↦ elim (Bool-cases s.vrifyed) [
    | inr v ↦ inl (ground arith)
    | inl v ↦ elim (Bool-cases (is_open s.conn)) [
      | inr o ↦ inl (ground arith)
      | inl o ↦ elim (Bool-cases s.running) [
        | inr r ↦ inl (ground arith)
        | inl r ↦ inr (bytes, ground arith, e, v, o, r)
      ]
    ]
  ]
]

-- A message that the gate does not keep for itself.
pub record IsForeign (msg : Msg) : Type 0 where
  pub verifies_not : msg.id ≢ msg_verify
  pub beats_not : msg.id ≢ msg_heartbeat
  pub registers_not : msg.id ≢ msg_reg_broat_cast
  pub disregisters_not : msg.id ≢ msg_disreg_broat_cast

-- Such a message of a verified session's client goes to CallNR as it came.
pub msg_in_forwards :
    (marshal : Msg → Option Bytes) (verify : Msg → Bool) (hb_back : Bool) (now i : ℕ) (msg : Msg)
    (w : World)
    → (w.session i).vrifyed ≡ true
    → IsForeign msg
    → (msg_in marshal verify hb_back now i msg w).0.calls ≡ w.calls ++ msg ∷ []
unfolding msg_in forward
msg_in_forwards marshal verify hb_back now i msg w v f =
    ground (arith, v, f.verifies_not, f.beats_not, f.registers_not, f.disregisters_not)
