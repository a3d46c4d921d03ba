-- ===== src/Strings/Split.antt =====
-- strings.Split with a separator of one byte, strings.TrimSpace, and joining.
use newtbig.Prelude.{
  ℕ, ◌≡◌, refl, ◌≢◌, Bool, ◌&&◌, ◌||◌, List, [], ◌∷◌, ◌++◌, arith, leb, ◌==◌, nat_eq, bytes_eq,
  if◌then◌else◌, Bytes, All,
}

unfoldable pub extend_head : ℕ → List Bytes → List Bytes
extend_head c [] = (c ∷ []) ∷ []
extend_head c (part ∷ parts) = (c ∷ part) ∷ parts

unfoldable pub split_on : ℕ → Bytes → List Bytes
unfolding extend_head
split_on sep [] = [] ∷ []
split_on sep (c ∷ s) =
    let parts = split_on sep s in if c == sep then [] ∷ parts else extend_head c parts

abbrev is_space : ℕ → Bool
is_space c = c == 32 || (leb 9 c && leb c 13)

unfoldable pub trim_right : (ℕ → Bool) → Bytes → Bytes
trim_right p [] = []
trim_right p (c ∷ s) = elim (trim_right p s) [ [] ↦ if p c then [] else c ∷ [] | d ∷ r ↦ c ∷ d ∷ r ]

unfoldable pub trim_left : (ℕ → Bool) → Bytes → Bytes
trim_left p [] = []
trim_left p (c ∷ s) = let rest = trim_left p s in if p c then rest else c ∷ s

unfoldable pub trim_space : Bytes → Bytes
unfolding trim_right trim_left
trim_space s = trim_left is_space (trim_right is_space s)

abbrev pub Without : ℕ → Bytes → Type 0
Without sep = All (λ c. c ≢ sep)

pub Without-append : (sep : ℕ) (a b : Bytes) → Without sep a → Without sep b → Without sep (a ++ b)
Without-append sep [] b ha hb = hb
Without-append sep (c ∷ a) b ha hb = (ha.0, Without-append sep a b ha.1 hb)

-- A text without the separator is one part.
pub split_on_whole : (sep : ℕ) (a : Bytes) → Without sep a → split_on sep a ≡ a ∷ []
unfolding split_on
split_on_whole sep [] h = refl
split_on_whole sep (c ∷ a) h = ground (arith, split_on_whole sep a h.1)

-- The first separator ends the first part.
pub split_on-append :
    (sep : ℕ) (a rest : Bytes)
    → Without sep a
    → split_on sep (a ++ sep ∷ rest) ≡ a ∷ split_on sep rest
unfolding split_on
split_on-append sep [] rest h = ground arith
split_on-append sep (c ∷ a) rest h = ground (arith, split_on-append sep a rest h.1)
