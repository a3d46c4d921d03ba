-- ===== src/Examples/Sorting.antt =====
-- An insertion sort that keeps the promise of sort.Sort: the tests of Dump run with it.
use newtbig.Prelude.{◌≡◌, Bool, false, List, [], ◌∷◌, if◌then◌else◌, All, Bool-cases, inl, inr}
use mathlib.Core.List.{Perm}
use mathlib.Core.List.Perm
use newtbig.Process.{PerfRecorder}
use newtbig.Process.Dump.{Sorts, IsStrict, InOrder}

module _ (less : PerfRecorder → PerfRecorder → Bool) where
  abbrev pub put_in : PerfRecorder → List PerfRecorder → List PerfRecorder
  put_in v [] = v ∷ []
  put_in v (w ∷ ws) = let rest = w ∷ put_in v ws in if less w v then rest else v ∷ w ∷ ws

  abbrev pub sorted : List PerfRecorder → List PerfRecorder
  sorted [] = []
  sorted (v ∷ vs) = put_in v (sorted vs)

  put_in-perm : (v : PerfRecorder) (ws : List PerfRecorder) → Perm (put_in v ws) (v ∷ ws)
  put_in-perm v [] = Perm.refl (v ∷ [])
  put_in-perm v (w ∷ ws) = elim (Bool-cases (less w v)) [
    | inl e ↦ rw e (Perm.trans (Perm.cons w (put_in-perm v ws)) (Perm.swap v w ws))
    | inr e ↦ rw e (Perm.refl (v ∷ w ∷ ws))
  ]

  pub sorted-perm : (vs : List PerfRecorder) → Perm (sorted vs) vs
  sorted-perm [] = Perm.refl []
  sorted-perm (v ∷ vs) = Perm.trans (put_in-perm v (sorted vs)) (Perm.cons v (sorted-perm vs))

  module _ (strict : IsStrict less) where
    put_in-All :
        (w v : PerfRecorder) (ws : List PerfRecorder)
        → less v w ≡ false
        → All (λ x. less x w ≡ false) ws
        → All (λ x. less x w ≡ false) (put_in v ws)
    put_in-All w v [] e a = (e, tt)
    put_in-All w v (x ∷ xs) e a = elim (Bool-cases (less x v)) [
      | inl f ↦ rw f (a.0, put_in-All w v xs e a.1)
      | inr f ↦ rw f (e, (a.0, a.1))
    ]

    All-above :
        (v w : PerfRecorder) (ws : List PerfRecorder)
        → less w v ≡ false
        → All (λ x. less x w ≡ false) ws
        → All (λ x. less x v ≡ false) ws
    All-above v w [] e a = tt
    All-above v w (x ∷ xs) e a = (strict.negative x w v a.0 e, All-above v w xs e a.1)

    put_in-InOrder :
        (v : PerfRecorder) (ws : List PerfRecorder) → InOrder less ws → InOrder less (put_in v ws)
    put_in-InOrder v [] o = (tt, tt)
    put_in-InOrder v (w ∷ ws) o = elim (Bool-cases (less w v)) [
      | inl e ↦ rw e (put_in-All w v ws (strict.asymmetric w v e) o.0, put_in-InOrder v ws o.1)
      | inr e ↦ rw e ((e, All-above v w ws e o.0), (o.0, o.1))
    ]

    pub sorted-InOrder : (vs : List PerfRecorder) → InOrder less (sorted vs)
    sorted-InOrder [] = tt
    sorted-InOrder (v ∷ vs) = put_in-InOrder v (sorted vs) (sorted-InOrder vs)

pub sorted-Sorts : Sorts sorted
sorted-Sorts = record {
  rearranges = sorted-perm;
  orders = λ less records s. sorted-InOrder less s records;
}
