-- ===== src/CapabilityAware/Improve.antt =====
-- How the capability aware scheduler keeps the best node of those that it looked at.
use strij.Base.{ℕ, ◌≡◌, subst, true, false, Option, none, some, arith, Bool-cases, inl, inr, ◌⊎◌}
use strij.CapabilityAware.{Best, is_better, improve}

-- A best node that the loop had before.
abbrev pub IsFrom : Option Best → Best → Type 0
IsFrom none r = ⊥
IsFrom (some b) r = b ≡ r

module _ (divide : ℕ → ℕ → ℕ) where
  -- Nor was an earlier best node better.
  abbrev pub NoWorse : Option Best → Best → Type 0
  NoWorse none r = Unit {0}
  NoWorse (some b) r = is_better divide b r ≡ false

  worse_still :
      (new b r : Best)
      → is_better divide new b ≡ false
      → is_better divide b r ≡ false
      → is_better divide new r ≡ false
  worse_still new b r e f = ground (arith, e, f)

  better_still :
      (new b r : Best)
      → is_better divide new b ≡ true
      → is_better divide new r ≡ false
      → is_better divide b r ≡ false
  better_still new b r e f = ground (arith, e, f)

  improve_better :
      (b new : Best) → is_better divide new b ≡ true → improve divide (some b) new ≡ some new
  improve_better b new e = ground (arith, e)

  improve_worse :
      (b new : Best) → is_better divide new b ≡ false → improve divide (some b) new ≡ some b
  improve_worse b new e = ground (arith, e)

  -- What the loop knows of the best node after a look at one more.
  pub improved :
      (best : Option Best) (new r : Best)
      → NoWorse (improve divide best new) r
      → (is_better divide new r ≡ false) × NoWorse best r
  improved none new r w = (w, tt)
  improved (some b) new r w = elim (Bool-cases (is_better divide new b)) [
    | inl better ↦
        let last : is_better divide new r ≡ false =
          subst (λ o. NoWorse o r) (improve_better b new better) w in
        (last, better_still new b r better last)
    | inr worse ↦
        let kept : is_better divide b r ≡ false =
          subst (λ o. NoWorse o r) (improve_worse b new worse) w in
        (worse_still new b r worse kept, kept)
  ]

  pub improved-IsFrom :
      (best : Option Best) (new r : Best)
      → IsFrom (improve divide best new) r
      → (new ≡ r) ⊎ IsFrom best r
  improved-IsFrom none new r f = inl f
  improved-IsFrom (some b) new r f = elim (Bool-cases (is_better divide new b)) [
    | inl better ↦ inl (subst (λ o. IsFrom o r) (improve_better b new better) f)
    | inr worse ↦ inr (subst (λ o. IsFrom o r) (improve_worse b new worse) f)
  ]
