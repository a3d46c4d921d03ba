-- ===== src/Registry/Context.antt =====
-- The values of a context that a service is made with, service/context.go. Contexts themselves are a
-- parameter: what Value finds, and what WithValue makes.
use newtbig.Prelude.{ℕ, Bool, false, Option, none, some, ◌≡◌, Bytes, codes, ap}

-- The type serverKey and the string `wait`.
pub data Key : Type 0 where
  server_key : Key
  named : Bytes → Key

-- A value of an interface: a server, a bool, or something else.
pub data Value : Type 0 where
  server : ℕ → Value
  flag : Bool → Value
  other : Value

pub record Contexts (Context : Type 0) : Type 0 where
  pub value : Context → Key → Option Value
  pub with_value : Context → Key → Value → Context

abbrev as_server : Option Value → Option ℕ
as_server (some (server s)) = some s
as_server _ = none

abbrev as_flag : Option Value → Bool
as_flag (some (flag b)) = b
as_flag _ = false

module _ {Context : Type 0} (contexts : Contexts Context) where
  -- A nil context waits for nothing.
  unfoldable pub wait : Option Context → Bool
  wait none = false
  wait (some ctx) = as_flag (contexts.value ctx (named (codes "wait")))

  unfoldable pub from_context : Context → Option ℕ
  from_context ctx = as_server (contexts.value ctx server_key)

  unfoldable pub new_context : Context → ℕ → Context
  new_context ctx s = contexts.with_value ctx server_key (server s)

  -- Where WithValue sets a value and leaves the other keys, a server's context gives the server,
  -- and waits as the context that it was made of.
  pub new_context-from_context :
      ((ctx : Context) (k : Key) (v : Value)
        → contexts.value (contexts.with_value ctx k v) k ≡ some v)
      → ((ctx : Context) (v : Value) (name : Bytes)
          → contexts.value (contexts.with_value ctx server_key v) (named name)
            ≡ contexts.value ctx (named name))
      → (ctx : Context) (s : ℕ)
      → (from_context (new_context ctx s) ≡ some s)
        × (wait (some (new_context ctx s)) ≡ wait (some ctx))
  unfolding from_context new_context wait
  new_context-from_context sets leaves ctx s = (
    ap as_server (sets ctx server_key (server s)),
    ap as_flag (leaves ctx (server s) (codes "wait")),
  )
