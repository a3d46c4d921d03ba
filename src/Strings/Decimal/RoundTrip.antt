-- ===== src/Strings/Decimal/RoundTrip.antt =====
-- The decimal text of a number, read again: the fuel of `itoa` is enough.
use newtbig.Prelude.{
  ℕ, zero, suc, ◌+◌, ◌-◌, ◌*◌, ◌/◌, ◌%◌, ◌^◌, ◌<◌, ◌≡◌, refl, ap, sym, subst, ◌∙◌, [], ◌∷◌, ◌++◌,
  some, arith, ltb, Bytes, Bool-cases, inl, inr,
}
use newtbig.Strings.Decimal.{digits_of, itoa, parse_digits, parse_uint}

-- Reading on after a text of digits.
parse_digits-append :
    (acc d : ℕ) (s : Bytes) (n : ℕ)
    → d < 10
    → parse_digits acc s ≡ some n
    → parse_digits acc (s ++ (b'0' + d) ∷ []) ≡ some (n * 10 + d)
unfolding parse_digits
parse_digits-append acc d [] n h e = ground arith
parse_digits-append acc d (c ∷ s) n h e =
    ground (arith, parse_digits-append (acc * 10 + (c - b'0')) d s n h)

parse_digits-digits_of : (f n : ℕ) → n < f → parse_digits 0 (digits_of f n) ≡ some n
unfolding digits_of
parse_digits-digits_of zero n h = absurd (omega arith)
parse_digits-digits_of (suc f) n h = elim (Bool-cases (ltb n 10)) [
  | inl small ↦ rw small (unfold parse_digits in ground arith)
  | inr big ↦ rw big (
      parse_digits-append 0 (n % 10) (digits_of f (n / 10)) (n / 10) (omega arith)
        (parse_digits-digits_of f (n / 10) (ground arith))
      ∙ ap some (omega arith))
]

digits_nonempty : (f n : ℕ) → n < f → (c : ℕ) × (s : Bytes) × (digits_of f n ≡ c ∷ s)
unfolding digits_of
digits_nonempty zero n h = absurd (omega arith)
digits_nonempty (suc f) n h = elim (Bool-cases (ltb n 10)) [
  | inl small ↦ (b'0' + n, [], rw small refl)
  | inr big ↦
      let (c, s, e) = digits_nonempty f (n / 10) (ground arith) in
      (c, s ++ (b'0' + n % 10) ∷ [], rw big (rw e refl))
]

parse_uint_whole :
    (bits n c : ℕ) (s : Bytes)
    → n < 2 ^ bits
    → parse_digits 0 (c ∷ s) ≡ some n
    → parse_uint bits (c ∷ s) ≡ some n
unfolding parse_uint
parse_uint_whole bits n c s h e = ground arith

-- Reading the decimal text of a number of the given width gives the number back.
pub parse_uint-itoa : (bits n : ℕ) → n < 2 ^ bits → parse_uint bits (itoa n) ≡ some n
unfolding parse_uint itoa
parse_uint-itoa bits n h =
    let (c, s, e) = digits_nonempty (n + 1) n (omega arith) in
    let read = parse_digits-digits_of (n + 1) n (omega arith) in
    subst (λ t. parse_uint bits t ≡ some n) (sym e)
      (parse_uint_whole bits n c s h (subst (λ t. parse_digits 0 t ≡ some n) e read))
