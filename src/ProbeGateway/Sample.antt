-- ===== src/ProbeGateway/Sample.antt =====
-- `sampleCandidates` and `Schedule` of the gateway's probe scheduler: which nodes a round probes.
use strij.Base.{
  ℕ, zero, suc, ◌+◌, ◌-◌, ◌≤◌, ◌≡◌, refl, ◌∙◌, String, Bool, List, [], ◌∷◌, some, arith,
  if◌then◌else◌, min, length, get_elem?, take, length-take, Option-cases, inl, inr,
}
use strij.ProbeGateway.{set, swap, shuffle, sample_candidates}

module _ {ℓ} {A : Type ℓ} where
  abbrev pub count : (A → Bool) → List A → ℕ
  count p [] = 0
  count p (x ∷ xs) = (if p x then 1 else 0) + count p xs

  count-set :
      (p : A → Bool) (xs : List A) (i : ℕ) (x a : A)
      → get_elem? xs i ≡ some x
      → count p (set xs i a) + (if p x then 1 else 0) ≡ count p xs + (if p a then 1 else 0)
  count-set p [] i x a e = ground (arith, e)
  count-set p (y ∷ xs) zero x a e = ground (arith, e)
  count-set p (y ∷ xs) (suc i) x a e = omega (arith, count-set p xs i x a e)

  length-set : (xs : List A) (i : ℕ) (a : A) → length (set xs i a) ≡ length xs
  length-set [] i a = refl
  length-set (x ∷ xs) zero a = refl
  length-set (x ∷ xs) (suc i) a = omega (arith, length-set xs i a)

  -- Writing `b` at another place does not hide the `b` that is at `j`.
  get_elem?-set :
      (xs : List A) (i j : ℕ) (b : A) → get_elem? xs j ≡ some b → get_elem? (set xs i b) j ≡ some b
  get_elem?-set [] i j b e = e
  get_elem?-set (x ∷ xs) zero zero b e = refl
  get_elem?-set (x ∷ xs) zero (suc j) b e = e
  get_elem?-set (x ∷ xs) (suc i) zero b e = e
  get_elem?-set (x ∷ xs) (suc i) (suc j) b e = get_elem?-set xs i j b e

  count-swap : (p : A → Bool) (xs : List A) (i j : ℕ) → count p (swap xs i j) ≡ count p xs
  count-swap p xs i j = elim (Option-cases (get_elem? xs i)) [
    | inl missing ↦ rw (swap, missing) refl
    | inr (a, first) ↦ elim (Option-cases (get_elem? xs j)) [
      | inl missing ↦ rw (swap, first, missing) refl
      | inr (b, second) ↦
          rw (swap, first, second)
            (omega (
              arith,
              count-set p xs i a b first,
              count-set p (set xs i b) j b a (get_elem?-set xs i j b second),
            ))
    ]
  ]

  length-swap : (xs : List A) (i j : ℕ) → length (swap xs i j) ≡ length xs
  length-swap xs i j = elim (Option-cases (get_elem? xs i)) [
    | inl missing ↦ rw (swap, missing) refl
    | inr (a, first) ↦ elim (Option-cases (get_elem? xs j)) [
      | inl missing ↦ rw (swap, first, missing) refl
      | inr (b, second) ↦ rw (swap, first, second) (length-set (set xs i b) j a ∙ length-set xs i b)
    ]
  ]

  count-take : (p : A → Bool) (n : ℕ) (xs : List A) → count p (take n xs) ≤ count p xs
  count-take p zero xs = omega arith
  count-take p (suc n) [] = omega arith
  count-take p (suc n) (x ∷ xs) = omega (arith, count-take p n xs)

  module _ (draw : String → ℕ → ℕ → ℕ) (seed : String) where
    count-shuffle :
        (p : A → Bool) (left i : ℕ) (pool : List A)
        → count p (shuffle draw seed left i pool) ≡ count p pool
    unfolding shuffle
    count-shuffle p zero i pool = refl
    count-shuffle p (suc left) i pool =
        let j = draw seed i (length pool - 1) in
        count-shuffle p left (suc i) (swap pool i j) ∙ count-swap p pool i j

    length-shuffle :
        (left i : ℕ) (pool : List A) → length (shuffle draw seed left i pool) ≡ length pool
    unfolding shuffle
    length-shuffle zero i pool = refl
    length-shuffle (suc left) i pool =
        let j = draw seed i (length pool - 1) in
        length-shuffle left (suc i) (swap pool i j) ∙ length-swap pool i j

    -- The sample has as many nodes as are asked for, or all there are; and it takes no candidate
    -- more often than it is there, whatever the generator draws.
    pub sample_candidates-sub :
        (candidates : List A) (node_num : ℕ)
        → (length (sample_candidates draw candidates node_num seed)
            ≡ min node_num (length candidates))
          × ((p : A → Bool)
              → count p (sample_candidates draw candidates node_num seed) ≤ count p candidates)
    unfolding sample_candidates
    sample_candidates-sub candidates node_num =
        let k = min node_num (length candidates) in
        let pool = shuffle draw seed k 0 candidates in
        (
          omega (arith, length-take k pool, length-shuffle k 0 candidates),
          λ p. omega (arith, count-take p k pool, count-shuffle p k 0 candidates),
        )
