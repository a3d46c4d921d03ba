-- ===== src/Strings/FilePath.antt =====
-- filepath.Base, filepath.Clean and filepath.Dir on Unix.
pub mod Nonempty
use newtbig.Prelude.{
  ℕ, ◌≡◌, refl, ◌≢◌, sym, subst, bytes_beq, bytes_beq_iff, ap, ◌∙◌, Bool, true, false, not, ◌&&◌,
  List, [], ◌∷◌, ◌++◌, arith, leb, ◌==◌, nat_eq, bytes_eq, ==_iff, if◌then◌else◌, Bytes, codes, All,
  Bool-cases, inl, inr,
}
use mathlib.Core.List.{append_assoc, append-nil}
use newtbig.Strings.Split.{
  split_on, extend_head, trim_right, Without, split_on_whole, split_on-append,
}

abbrev pub slash : ℕ
slash = b'/'

last_part : Bytes → List Bytes → Bytes
last_part part [] = part
last_part part (next ∷ parts) = last_part next parts

last_of : List Bytes → Bytes
unfolding last_part
last_of [] = []
last_of (part ∷ parts) = last_part part parts

-- What follows the last slash of a path with no slash at its end.
base_of : Bytes → Bytes
unfolding last_of split_on
base_of [] = slash ∷ []
base_of (c ∷ s) = last_of (split_on slash (c ∷ s))

unfoldable pub base : Bytes → Bytes
unfolding base_of trim_right
base [] = codes "."
base (c ∷ s) = base_of (trim_right (λ d. d == slash) (c ∷ s))

-- One path element against the elements kept so far, the latest first.
push_part : Bool → Bytes → List Bytes → List Bytes
push_part rooted part [] =
    if part == []
    then []
    else if part == codes "."
    then []
    else if part == codes ".."
    then (if rooted then [] else part ∷ [])
    else part ∷ []
push_part rooted part (top ∷ kept) =
    if part == []
    then top ∷ kept
    else if part == codes "."
    then top ∷ kept
    else if part == codes ".."
    then (if top == codes ".." then part ∷ top ∷ kept else kept)
    else part ∷ top ∷ kept

push_parts : Bool → List Bytes → List Bytes → List Bytes
unfolding push_part
push_parts rooted [] kept = kept
push_parts rooted (part ∷ parts) kept = push_parts rooted parts (push_part rooted part kept)

-- The kept elements, the latest first, joined by slashes in front of `rest`.
join_onto : List Bytes → Bytes → Bytes
join_onto [] rest = rest
join_onto (part ∷ []) rest = part ++ rest
join_onto (part ∷ next ∷ kept) rest = join_onto (next ∷ kept) (slash ∷ part ++ rest)

or_dot : Bytes → Bytes
or_dot [] = codes "."
or_dot (c ∷ s) = c ∷ s

unfoldable pub clean : Bytes → Bytes
unfolding push_parts join_onto or_dot split_on
clean [] = codes "."
clean (c ∷ s) =
    if c == slash
    then slash ∷ join_onto (push_parts true (split_on slash s) []) []
    else or_dot (join_onto (push_parts false (split_on slash (c ∷ s)) []) [])

-- The path up to its last slash, that slash included.
dir_part : Bytes → Bytes
dir_part [] = []
dir_part (c ∷ s) = elim (dir_part s) [ [] ↦ if c == slash then c ∷ [] else [] | d ∷ r ↦ c ∷ d ∷ r ]

unfoldable pub dir : Bytes → Bytes
unfolding clean dir_part
dir path = clean (dir_part path)

-- A path element of a registration key: not empty, no dots alone, and no slash.
pub record IsPlain (s : Bytes) : Type 0 where
  pub slashless : Without slash s
  pub nonempty : s ≢ []
  pub not_dot : s ≢ codes "."
  pub not_dots : s ≢ codes ".."

-- A text that does not end in a slash keeps its end.
trim_right_end :
    (p s : Bytes) → Without slash s → s ≢ [] → trim_right (λ d. d == slash) (p ++ s) ≡ p ++ s
unfolding trim_right
trim_right_end [] [] h ne = absurd (ne refl)
trim_right_end [] (c ∷ []) h ne = ground (arith, h.0)
trim_right_end [] (c ∷ d ∷ s) h ne = rw (trim_right_end [] (d ∷ s) h.1 (λ e. cc))
trim_right_end (x ∷ p) [] h ne = absurd (ne refl)
trim_right_end (x ∷ []) (c ∷ s) h ne = rw (trim_right_end [] (c ∷ s) h ne)
trim_right_end (x ∷ y ∷ p) (c ∷ s) h ne = rw (trim_right_end (y ∷ p) (c ∷ s) h ne)

-- `a/b` and `a/b/c`.
abbrev pub path2 : Bytes → Bytes → Bytes
path2 a b = a ++ slash ∷ b

abbrev pub path3 : Bytes → Bytes → Bytes → Bytes
path3 a b c = a ++ slash ∷ (b ++ slash ∷ c)

base_trimmed :
    (p s : Bytes) → Without slash s → s ≢ [] → base (p ++ s) ≡ last_of (split_on slash (p ++ s))
unfolding base
base_trimmed [] [] h ne = absurd (ne refl)
base_trimmed [] (c ∷ s) h ne = rw (trim_right_end [] (c ∷ s) h ne)
base_trimmed (x ∷ p) s h ne = rw (trim_right_end (x ∷ p) s h ne)

split_path2 : (a b : Bytes) → IsPlain a → IsPlain b → split_on slash (path2 a b) ≡ a ∷ b ∷ []
split_path2 a b pa pb =
    rw (split_on-append slash a b pa.slashless, split_on_whole slash b pb.slashless)

-- The base of a path is its last element.
pub base_whole : (a : Bytes) → IsPlain a → base a ≡ a
unfolding last_of
base_whole a pa =
    rw (base_trimmed [] a pa.slashless pa.nonempty, split_on_whole slash a pa.slashless)

base_after_slash :
    (p b : Bytes)
    → Without slash b
    → b ≢ []
    → base (p ++ slash ∷ b) ≡ last_of (split_on slash (p ++ slash ∷ b))
base_after_slash p b h ne =
    subst (λ t. base t ≡ last_of (split_on slash t)) (append_assoc p (slash ∷ []) b)
      (base_trimmed (p ++ slash ∷ []) b h ne)

dir_part_whole : (b : Bytes) → Without slash b → dir_part b ≡ []
unfolding dir_part
dir_part_whole [] h = refl
dir_part_whole (c ∷ b) h = rw (dir_part_whole b h.1) (ground (arith, h.0))

dir_part-append : (p b : Bytes) → Without slash b → dir_part (p ++ slash ∷ b) ≡ p ++ slash ∷ []
unfolding dir_part
dir_part-append [] b h = rw (dir_part_whole b h)
dir_part-append (c ∷ []) b h = rw (dir_part-append [] b h)
dir_part-append (c ∷ d ∷ p) b h = rw (dir_part-append (d ∷ p) b h)

push_part_plain :
    (rooted : Bool) (part : Bytes) (kept : List Bytes)
    → IsPlain part
    → push_part rooted part kept ≡ part ∷ kept
unfolding push_part
push_part_plain rooted part [] h = ground (
  arith,
  bytes_beq_iff part [],
  bytes_beq_iff part (codes "."),
  bytes_beq_iff part (codes ".."),
  h.nonempty,
  h.not_dot,
  h.not_dots,
)
push_part_plain rooted part (top ∷ kept) h = ground (
  arith,
  bytes_beq_iff part [],
  bytes_beq_iff part (codes "."),
  bytes_beq_iff part (codes ".."),
  h.nonempty,
  h.not_dot,
  h.not_dots,
)

push_part_empty : (kept : List Bytes) → push_part false [] kept ≡ kept
unfolding push_part bytes_beq
push_part_empty [] = refl
push_part_empty (top ∷ kept) = refl

-- The cleaned form of a path whose first element is plain.
clean_relative :
    (a rest : Bytes)
    → IsPlain a
    → clean (a ++ rest) ≡ or_dot (join_onto (push_parts false (split_on slash (a ++ rest)) []) [])
unfolding clean
clean_relative [] rest h = absurd (h.nonempty refl)
clean_relative (c ∷ a) rest h = ground (arith, h.slashless.0)

or_dot_plain : (a rest : Bytes) → a ≢ [] → or_dot (a ++ rest) ≡ a ++ rest
unfolding or_dot
or_dot_plain [] rest ne = absurd (ne refl)
or_dot_plain (c ∷ a) rest ne = refl

split_slash_end : (b : Bytes) → Without slash b → split_on slash (b ++ slash ∷ []) ≡ b ∷ [] ∷ []
split_slash_end b h = rw (split_on-append slash b [] h, split_on_whole slash [] tt)

module _ (a b : Bytes) (pa : IsPlain a) (pb : IsPlain b) where
  pub base-path2 : base (path2 a b) ≡ b
  unfolding last_of
  base-path2 = rw (
    base_after_slash a b pb.slashless pb.nonempty,
    split_on-append slash a b pa.slashless,
    split_on_whole slash b pb.slashless,
  )

  pub dir-path2 : dir (path2 a b) ≡ a
  unfolding dir push_parts join_onto
  dir-path2 =
      rw
        (
          dir_part-append a b pb.slashless,
          clean_relative a (slash ∷ []) pa,
          split_slash_end a pa.slashless,
          push_part_plain false a [] pa,
          push_part_empty (a ∷ []),
        )
        (or_dot_plain a [] pa.nonempty ∙ append-nil a)

module _ (a b c : Bytes) (pa : IsPlain a) (pb : IsPlain b) (pc : IsPlain c) where
  path3_regroup : (path2 a b) ++ slash ∷ c ≡ path3 a b c
  path3_regroup = append_assoc a (slash ∷ b) (slash ∷ c)

  pub base-path3 : base (path3 a b c) ≡ c
  unfolding last_of
  base-path3 = rw (
    ← path3_regroup,
    base_after_slash (path2 a b) c pc.slashless pc.nonempty,
    path3_regroup,
    split_on-append slash a (path2 b c) pa.slashless,
    split_path2 b c pb pc,
  )

  pub dir-path3 : dir (path3 a b c) ≡ path2 a b
  unfolding dir push_parts join_onto
  dir-path3 =
      rw
        (
          ← path3_regroup,
          dir_part-append (path2 a b) c pc.slashless,
          append_assoc a (slash ∷ b) (slash ∷ []),
          clean_relative a (slash ∷ b ++ slash ∷ []) pa,
          split_on-append slash a (b ++ slash ∷ []) pa.slashless,
          split_slash_end b pb.slashless,
          push_part_plain false a [] pa,
          push_part_plain false b (a ∷ []) pb,
          push_part_empty (b ∷ a ∷ []),
        )
        (rw append-nil (or_dot_plain a (slash ∷ b) pa.nonempty))

-- A path without a slash is in the current directory.
pub dir_whole : (b : Bytes) → Without slash b → dir b ≡ codes "."
unfolding dir clean
dir_whole b h = rw (dir_part_whole b h)
