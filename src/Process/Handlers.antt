-- ===== src/Process/Handlers.antt =====
-- Which handler a message reaches.
use newtbig.Prelude.{
  ℕ, ◌≡◌, refl, ◌∙◌, List, [], ◌∷◌, Option, none, some, arith, ◌==◌, nat_eq, if◌then◌else◌, lookup,
  lookup-insert, Option-cases, inl, inr,
}
use newtbig.Common.{Msg}
use newtbig.Process.{Processor, Handler, returned, register, handle_msg, call_handler, settle}

-- The registrations of a program, in their order.
unfoldable pub register_all : List (ℕ × Handler) → Processor → Processor
register_all [] p = p
register_all ((id, h) ∷ regs) p = register_all regs (register p id h)

-- What the first registration of an id gives, where none stood before.
abbrev pub or_else : Option Handler → Option Handler → Option Handler
or_else none b = b
or_else (some a) b = some a

lookup-register :
    (p : Processor) (id j : ℕ) (h : Handler)
    → lookup j (register p id h).msg_infos
      ≡ or_else (lookup j p.msg_infos) (if id == j then some h else none)
unfolding register
lookup-register p id j h = elim (Option-cases (lookup id p.msg_infos)) [
  | inl e ↦ ground (arith, lookup-insert id j h p.msg_infos)
  | inr (k, e) ↦ ground arith
]

lookup-register_all :
    (regs : List (ℕ × Handler)) (p : Processor) (j : ℕ)
    → lookup j (register_all regs p).msg_infos ≡ or_else (lookup j p.msg_infos) (lookup j regs)
unfolding register_all lookup
lookup-register_all [] p j = ground arith
lookup-register_all ((id, h) ∷ regs) p j =
    ground (arith, lookup-register_all regs (register p id h) j, lookup-register p id j h)

-- After any registrations on a processor with none, HandleMsg settles a message with the outcome of
-- the first handler that was registered for its id, or with no reply where there is none.
pub handle_msg_first :
    (regs : List (ℕ × Handler)) (p : Processor) (dur : ℕ) (msg : Msg)
    → p.msg_infos ≡ []
    → handle_msg dur (register_all regs p) msg ≡ elim (lookup msg.id regs) [
      | none ↦ settle dur msg.id (register_all regs p) (returned none)
      | some handler ↦ settle dur msg.id (register_all regs p) (call_handler handler msg)
    ]
unfolding handle_msg
handle_msg_first regs p dur msg e =
    let none_before : lookup msg.id p.msg_infos ≡ none = rw e (unfold lookup in refl) in
    let found : lookup msg.id (register_all regs p).msg_infos ≡ lookup msg.id regs =
      lookup-register_all regs p msg.id ∙ rw none_before refl in
    rw (found, handle_msg) refl
