-- ===== src/Gate/Tcp/Buffer.antt =====
-- Copies into a buffer, and the head of a frame.
use newtbig.Prelude.{
  ℕ, zero, suc, ◌+◌, ◌-◌, ◌%◌, ◌^◌, ◌≤◌, ◌<◌, ◌≡◌, refl, ap, Bool, true, false, [], ◌∷◌, ◌++◌, some,
  arith, ◌==◌, nat_eq, if◌then◌else◌, Bytes, length, take, drop, Bool-cases, inl, inr,
}
use newtbig.Options.{Options}
use newtbig.Gate.Tcp.{
  put_uint16, put_uint32, uint16, uint32, put_size, read_size, overwrite, write_at, make_bytes,
}

pub length-make_bytes : (n : ℕ) → length (make_bytes n) ≡ n
unfolding make_bytes
length-make_bytes zero = refl
length-make_bytes (suc n) = ap suc (length-make_bytes n)

pub length-overwrite : (d cache : Bytes) → length (overwrite d cache) ≡ length cache
unfolding overwrite
length-overwrite [] cache = refl
length-overwrite (b ∷ d) [] = refl
length-overwrite (b ∷ d) (c ∷ cache) = ap suc (length-overwrite d cache)

pub length-write_at : (i : ℕ) (d cache : Bytes) → length (write_at i d cache) ≡ length cache
unfolding write_at
length-write_at zero d cache = length-overwrite d cache
length-write_at (suc i) d [] = refl
length-write_at (suc i) d (c ∷ cache) = ap suc (length-write_at i d cache)

take-overwrite :
    (d cache : Bytes) → length d ≤ length cache → take (length d) (overwrite d cache) ≡ d
unfolding overwrite
take-overwrite [] cache h = refl
take-overwrite (b ∷ d) [] h = absurd (omega arith)
take-overwrite (b ∷ d) (c ∷ cache) h = ap (◌∷◌ b) (take-overwrite d cache (omega arith))

-- What a copy at `i` leaves before its end.
pub take-write_at :
    (i : ℕ) (d cache : Bytes)
    → i + length d ≤ length cache
    → take (i + length d) (write_at i d cache) ≡ take i cache ++ d
unfolding write_at
take-write_at zero d cache h =
    let start : 0 + length d ≡ length d = omega arith in
    rw start (take-overwrite d cache (omega (arith, h)))
take-write_at (suc i) d [] h = absurd (omega arith)
take-write_at (suc i) d (c ∷ cache) h =
    let next : suc i + length d ≡ suc (i + length d) = omega arith in
    rw next (ap (◌∷◌ c) (take-write_at i d cache (omega arith)))

-- The head's place keeps the old bytes behind a shorter head.
pub overwrite_front :
    (n : ℕ) (d cache : Bytes)
    → length d ≤ length cache
    → length d ≤ n
    → take n (overwrite d cache) ≡ d ++ take (n - length d) (drop (length d) cache)
unfolding overwrite
overwrite_front n [] cache h k = let whole : n - 0 ≡ n = omega arith in rw whole refl
overwrite_front n (b ∷ d) [] h k = absurd (omega arith)
overwrite_front zero (b ∷ d) (c ∷ cache) h k = absurd (omega arith)
overwrite_front (suc n) (b ∷ d) (c ∷ cache) h k =
    let next : suc n - suc (length d) ≡ n - length d = omega arith in
    rw next (ap (◌∷◌ b) (overwrite_front n d cache (omega arith) (omega arith)))

-- How many bytes the head has, and below which number it counts.
abbrev pub head_width : Options → ℕ
head_width opts = if opts.net_head_size == 2 then 2 else 4

abbrev pub capacity : Options → ℕ
capacity opts = if opts.net_head_size == 2 then 2 ^ 16 else 2 ^ 32

length-put_uint16 : (big : Bool) (n : ℕ) → length (put_uint16 big n) ≡ 2
unfolding put_uint16
length-put_uint16 true n = refl
length-put_uint16 false n = refl

length-put_uint32 : (big : Bool) (n : ℕ) → length (put_uint32 big n) ≡ 4
unfolding put_uint32
length-put_uint32 true n = refl
length-put_uint32 false n = refl

pub length-put_size : (opts : Options) (sz : ℕ) → length (put_size opts sz) ≡ head_width opts
unfolding put_size
length-put_size opts sz = ground (
  arith,
  length-put_uint16 opts.byte_order (sz % 2 ^ 16),
  length-put_uint32 opts.byte_order (sz % 2 ^ 32),
)

uint16_put :
    (big : Bool) (n : ℕ) (s : Bytes) → n < 2 ^ 16 → uint16 big (put_uint16 big n ++ s) ≡ some n
unfolding uint16 put_uint16
uint16_put true n s h = ap some (omega arith)
uint16_put false n s h = ap some (omega arith)

uint32_put :
    (big : Bool) (n : ℕ) (s : Bytes) → n < 2 ^ 32 → uint32 big (put_uint32 big n ++ s) ≡ some n
unfolding uint32 put_uint32
uint32_put true n s h = ap some (omega arith)
uint32_put false n s h = ap some (omega arith)

-- What is read of a head: the size, as far as the head can hold it.
pub read_size-put_size :
    (opts : Options) (sz : ℕ) (s : Bytes)
    → read_size opts (put_size opts sz ++ s) ≡ some (sz % capacity opts)
unfolding read_size put_size
read_size-put_size opts sz s = elim (Bool-cases (opts.net_head_size == 2)) [
  | inl e ↦ rw (e, read_size, put_size) (uint16_put opts.byte_order (sz % 2 ^ 16) s (omega arith))
  | inr e ↦ rw (e, read_size, put_size) (uint32_put opts.byte_order (sz % 2 ^ 32) s (omega arith))
]
