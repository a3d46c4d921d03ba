-- ===== src/Demo/Login.antt =====
-- The handlers of the demo's login server, demo/login/handle/handler.go. The decoding of protobuf
-- and what fmt.Fprintf writes for a format are parameters.
use newtbig.Prelude.{
  ℕ, ◌-◌, ◌%◌, ◌^◌, Bool, List, [], ◌∷◌, Option, none, some, nat_eq, bytes_eq, if◌then◌else◌, Bytes,
  codes, Result, ok, err,
}
use newtbig.Registry.{Registration}
use newtbig.Strings.Decimal.{Signed, atoi}
use newtbig.Ring.Interface.{SortedKeys}
use newtbig.Dispatcher.{Dispatcher, get_gate}

-- What a handler does: it writes nothing, it writes a page, or it panics.
pub data Page : Type 0 where
  nothing crashed : Page
  written : Bytes → Page

-- uint64 of an int64.
abbrev pub to_uint64 : Signed → ℕ
to_uint64 (negative, n) = if negative then (2 ^ 64 - n) % 2 ^ 64 else n

module _ (fprintf : Bytes → Bytes) (unmarshal : Bytes → Option Registration) where
  -- What GetGate returned: an empty status is a nil slice, and then the error is nil too.
  unfoldable pub gate_page : Bytes → Page
  gate_page [] = crashed
  gate_page (b ∷ bytes) = elim (unmarshal (b ∷ bytes)) [
    | none ↦ nothing
    | some status ↦ written (fprintf status.addr)
  ]

  -- HandleLogin, with the values of the parameter uid.
  unfoldable pub handle_login : {S : SortedKeys} → Dispatcher S → Option (List Bytes) → Page
  handle_login d none = nothing
  handle_login d (some []) = crashed
  handle_login d (some (uid_s ∷ rest)) = elim (atoi uid_s) [
    | none ↦ written (fprintf (codes "fail"))
    | some uid ↦ elim (get_gate d (to_uint64 uid)) [
      | err e ↦ written (fprintf (codes "fail"))
      | ok status ↦ gate_page status
    ]
  ]

-- HandleClear, given whether Clear succeeds.
unfoldable pub handle_clear : (Bytes → Bytes) → Bool → Page
handle_clear fprintf clears =
    if clears then written (fprintf (codes "OK")) else written (fprintf (codes "fail"))

-- HandleStatus, given what GetStatus returns and whether it is read as a ServiceInfo. The services
-- are logged.
unfoldable pub handle_status :
    {E : Type 0} → (Bytes → Bytes) → (Bytes → Bool) → Result E Bytes → Page
handle_status fprintf reads (err e) = written (fprintf (codes "fail"))
handle_status fprintf reads (ok info) =
    if reads info then written (fprintf (codes "OK")) else nothing
