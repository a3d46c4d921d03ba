-- ===== src/Rpc/Channel.antt =====
-- Go's buffered channels of messages, with what a send, a receive and a close do in each state.
use newtbig.Prelude.{
  ℕ, Bool, true, false, List, [], ◌∷◌, ◌++◌, Option, none, some, ltb, if◌then◌else◌, length,
}

pub record Channel {ℓ} (A : Type ℓ) : Type ℓ where
  pub capacity : ℕ
  pub queue : List A
  pub closed : Bool

-- What a send comes to, where nobody receives: a panic on a closed channel, a wait on a full one.
pub data Sent {ℓ} (A : Type ℓ) : Type ℓ where
  queued : Channel A → Sent A
  blocks : Sent A
  panics : Sent A

-- What a receive comes to.
pub data Received {ℓ} (A : Type ℓ) : Type ℓ where
  value : A → Channel A → Received A
  waits : Received A
  finished : Received A

module _ {ℓ} {A : Type ℓ} where
  unfoldable pub make_channel : ℕ → Channel A
  make_channel n = record { capacity = n; queue = []; closed = false }

  unfoldable pub put : A → Channel A → Sent A
  put a c =
      if c.closed
      then panics
      else if ltb (length c.queue) c.capacity
      then queued (record c { queue = c.queue ++ a ∷ [] })
      else blocks

  unfoldable pub receive : Channel A → Received A
  receive c = elim c.queue [
    | a ∷ rest ↦ value a (record c { queue = rest })
    | [] ↦ if c.closed then finished else waits
  ]

  -- `close`, which panics on a closed channel.
  unfoldable pub close : Channel A → Option (Channel A)
  close c = if c.closed then none else some (record c { closed = true })
