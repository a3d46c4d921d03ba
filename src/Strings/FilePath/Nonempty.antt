-- ===== src/Strings/FilePath/Nonempty.antt =====
-- What filepath.Base keeps of a path.
use newtbig.Prelude.{
  ℕ, ◌≡◌, refl, ◌≢◌, false, List, [], ◌∷◌, ◌==◌, nat_eq, bytes_eq, if◌then◌else◌, Bytes, Bool-cases,
  inl, inr,
}
use newtbig.Strings.Split.{split_on, extend_head, trim_right}
use newtbig.Strings.FilePath.{slash, last_of, base_of, base}

last_of-extend_head :
    (c : ℕ) (parts : List Bytes) → last_of parts ≢ [] → last_of (extend_head c parts) ≢ []
unfolding last_of extend_head
last_of-extend_head c [] h e = cc
last_of-extend_head c (part ∷ []) h e = cc
last_of-extend_head c (part ∷ next ∷ parts) h e = h e

last_of-cons : (parts : List Bytes) → last_of parts ≢ [] → last_of ([] ∷ parts) ≢ []
unfolding last_of
last_of-cons [] h e = h e
last_of-cons (part ∷ parts) h e = h e

module _ (c : ℕ) (s : Bytes) where
  -- One byte in front of a trimmed text that has a last element.
  last_of_step : last_of (split_on slash s) ≢ [] → last_of (split_on slash (c ∷ s)) ≢ []
  unfolding split_on
  last_of_step h = elim (Bool-cases (c == slash)) [
    | inl e ↦ rw e (last_of-cons (split_on slash s) h)
    | inr e ↦ rw e (last_of-extend_head c (split_on slash s) h)
  ]

last_of_one : (c : ℕ) → (c == slash) ≡ false → last_of (split_on slash (c ∷ [])) ≢ []
unfolding split_on last_of
last_of_one c h = rw h (λ e. cc)

-- What `trim_right` keeps has a last element.
abbrev HasLast : Bytes → Type 0
HasLast t = t ≢ [] → last_of (split_on slash t) ≢ []

last_of-trim_right : (s : Bytes) → HasLast (trim_right (λ d. d == slash) s)
unfolding trim_right
last_of-trim_right [] = λ h. absurd (h refl)
last_of-trim_right (c ∷ s) = go (trim_right (λ d. d == slash) s) (last_of-trim_right s)
  where
    go :
        (r : Bytes)
        → HasLast r
        → HasLast (elim r [ [] ↦ if c == slash then [] else c ∷ [] | d ∷ t ↦ c ∷ d ∷ t ])
    go [] h = elim (Bool-cases (c == slash)) [
      | inl e ↦ rw e (λ ne. absurd (ne refl))
      | inr e ↦ rw e (λ _. last_of_one c e)
    ]
    go (d ∷ t) h = λ _. last_of_step c (d ∷ t) (h (λ e. cc))

base_of_trimmed : (t : Bytes) → HasLast t → base_of t ≢ []
unfolding base_of
base_of_trimmed [] h e = cc
base_of_trimmed (c ∷ t) h e = h (λ p. cc) e

-- filepath.Base never returns the empty string.
pub base-ne-nil : (s : Bytes) → base s ≢ []
unfolding base
base-ne-nil [] e = cc
base-ne-nil (c ∷ s) e = base_of_trimmed _ (last_of-trim_right (c ∷ s)) e
