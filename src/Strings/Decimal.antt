-- ===== src/Strings/Decimal.antt =====
-- strconv.Itoa, Sprintf("%d"), strconv.ParseUint in base 10 and strconv.Atoi.
pub mod RoundTrip
use newtbig.Prelude.{
  ℕ, zero, suc, ◌+◌, ◌-◌, ◌*◌, ◌/◌, ◌%◌, ◌^◌, ◌≤◌, Bool, true, false, ◌&&◌, [], ◌∷◌, ◌++◌, Option,
  none, some, arith, ltb, leb, ◌==◌, nat_eq, bytes_eq, if◌then◌else◌, Bytes, All, Bool-cases,
  ltb→lt, inl, inr,
}

digits_of : ℕ → ℕ → Bytes
digits_of zero n = []
digits_of (suc f) n =
    let rest = digits_of f (n / 10) ++ (b'0' + n % 10) ∷ [] in
    if ltb n 10 then (b'0' + n) ∷ [] else rest

-- The decimal digits; `n + 1` divisions by ten are more than enough.
unfoldable pub itoa : ℕ → Bytes
unfolding digits_of
itoa n = digits_of (n + 1) n

abbrev is_digit : ℕ → Bool
is_digit c = leb b'0' c && leb c b'9'

parse_digits : ℕ → Bytes → Option ℕ
parse_digits n [] = some n
parse_digits n (c ∷ cs) =
    let rest = parse_digits (n * 10 + (c - b'0')) cs in if is_digit c then rest else none

-- ParseUint(s, 10, bits): no sign, at least one digit, and the value fits.
unfoldable pub parse_uint : ℕ → Bytes → Option ℕ
unfolding parse_digits
parse_uint bits [] = none
parse_uint bits (c ∷ cs) = elim (parse_digits 0 (c ∷ cs)) [
  | none ↦ none
  | some n ↦ if ltb n (2 ^ bits) then some n else none
]

-- An `int` is a sign, true for negative, and a magnitude.
abbrev pub Signed : Type 0
Signed = Bool × ℕ

signed : Bool → Bytes → Option Signed
signed negative s = elim (parse_uint 64 s) [
  | none ↦ none
  | some n ↦
      if (if negative then leb n (2 ^ 63) else ltb n (2 ^ 63)) then some (negative, n) else none
]

unfoldable pub atoi : Bytes → Option Signed
unfolding signed parse_uint
atoi [] = none
atoi (c ∷ cs) =
    if c == b'-'
    then signed true cs
    else if c == b'+'
    then signed false cs
    else signed false (c ∷ cs)

-- The conversion of an `int` to an `int8`, as a bit pattern below 256.
unfoldable pub to_int8 : Signed → ℕ
to_int8 (negative, n) = if negative then (256 - n % 256) % 256 else n % 256

-- A digit string holds digits only, so no separator of the program's keys.
abbrev pub IsDigits : Bytes → Type 0
IsDigits = All (λ c. (b'0' ≤ c) × (c ≤ b'9'))

IsDigits-append : (ds es : Bytes) → IsDigits ds → IsDigits es → IsDigits (ds ++ es)
IsDigits-append [] es p q = q
IsDigits-append (d ∷ ds) es p q = (p.0, IsDigits-append ds es p.1 q)

digits_of-IsDigits : (f n : ℕ) → IsDigits (digits_of f n)
unfolding digits_of
digits_of-IsDigits zero n = tt
digits_of-IsDigits (suc f) n = elim (Bool-cases (ltb n 10)) [
  | inl small ↦ rw small ((omega arith, omega (arith, ltb→lt n 10 small)), tt)
  | inr big ↦ rw big (
      IsDigits-append (digits_of f (n / 10)) _ (digits_of-IsDigits f (n / 10))
        ((omega arith, omega arith), tt))
]

pub itoa-IsDigits : (n : ℕ) → IsDigits (itoa n)
unfolding itoa
itoa-IsDigits n = digits_of-IsDigits (n + 1) n
