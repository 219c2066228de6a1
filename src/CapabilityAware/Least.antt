-- ===== src/CapabilityAware/Least.antt =====
-- The node that the capability aware scheduler chooses.
use strij.Base.{
  ℕ, zero, suc, ◌≡◌, ◌<◌, ◌≤◌, ltb, refl, sym, subst, true, false, List, [], ◌∷◌, Option, none,
  some, arith, get_elem?, Bool-cases, Option-cases, inl, inr, ◌⊎◌,
}
use strij.Task.{Task}
use strij.NodeDirectory.{Node, Directory}
use strij.NodeDirectory.Choice.{get_candidates}
use strij.CapabilityAware.{
  Best, eligible, rated, is_better, improve, load_ratio, node_in_flight, choose_from, choose,
}
use strij.CapabilityAware.Improve.{IsFrom, NoWorse, improved, improved-IsFrom}

module _ (divide : ℕ → ℕ → ℕ) (task : Task) where
  -- None of the eligible nodes of the list is better.
  abbrev pub Least : List Node → Best → Type 0
  Least nodes best =
      (i : ℕ) (other : Node)
      → get_elem? nodes i ≡ some other
      → eligible other task ≡ true
      → is_better divide (rated divide other task) best ≡ false

  abbrev pub Among : List Node → Best → Type 0
  Among nodes best =
      (i : ℕ) × (get_elem? nodes i ≡ some best.node)
      × (eligible best.node task ≡ true)
      × (best ≡ rated divide best.node task)

  -- What a run of the loop returns.
  record Chooses (nodes : List Node) (best : Option Best) (r : Best) : Type 0 where
    least : Least nodes r
    no_worse : NoWorse divide best r
    among : Among nodes r ⊎ IsFrom best r

  Least-cons :
      (node : Node) (nodes : List Node) (r : Best)
      → (eligible node task ≡ true → is_better divide (rated divide node task) r ≡ false)
      → Least nodes r
      → Least (node ∷ nodes) r
  Least-cons node nodes r first rest zero other found fit =
      subst (λ n. eligible n task ≡ true → is_better divide (rated divide n task) r ≡ false)
        (ground (arith, found)) first fit
  Least-cons node nodes r first rest (suc i) other found fit = rest i other found fit

  first_Among :
      (node : Node) (nodes : List Node) (r : Best)
      → eligible node task ≡ true
      → rated divide node task ≡ r
      → Among (node ∷ nodes) r
  first_Among node nodes r fit this = subst (Among (node ∷ nodes)) this (zero, refl, fit, refl)

  choose_from-Chooses :
      (nodes : List Node) (best : Option Best) (r : Best)
      → choose_from divide task nodes best ≡ some r
      → Chooses nodes best r
  unfolding choose_from
  choose_from-Chooses [] none r e = ground (arith, e)
  choose_from-Chooses [] (some b) r e = record {
    least = λ i other found. ground (arith, found);
    no_worse = ground (arith, e);
    among = inr (ground (arith, e));
  }
  choose_from-Chooses (node ∷ nodes) best r e = elim (Bool-cases (eligible node task)) [
    | inl fit ↦
        let new = rated divide node task in
        let rest = choose_from-Chooses nodes (improve divide best new) r (ground (arith, e, fit)) in
        let known = improved divide best new r rest.no_worse in
        record {
          least = Least-cons node nodes r (λ _. known.0) rest.least;
          no_worse = known.1;
          among = elim rest.among [
            | inl (i, there, fits, rating) ↦ inl (suc i, there, fits, rating)
            | inr from ↦ elim (improved-IsFrom divide best new r from) [
              | inl this ↦ inl (first_Among node nodes r fit this)
              | inr earlier ↦ inr earlier
            ]
          ];
        }
    | inr unfit ↦
        let rest = choose_from-Chooses nodes best r (ground (arith, e, unfit)) in
        record {
          least = Least-cons node nodes r (λ fit. ground (arith, fit, unfit)) rest.least;
          no_worse = rest.no_worse;
          among = elim rest.among [
            | inl (i, there, fits, rating) ↦ inl (suc i, there, fits, rating)
            | inr earlier ↦ inr earlier
          ];
        }
  ]

  -- The load ratio of the node is lower than that of the other, or it is the same and the node has no
  -- more tasks in flight.
  abbrev pub NoMoreLoaded : Node → Node → Type 0
  NoMoreLoaded node other =
      (load_ratio divide node task < load_ratio divide other task)
      ⊎ ((load_ratio divide node task ≡ load_ratio divide other task)
          × (node_in_flight node.state ≤ node_in_flight other.state))

  is_better-NoMoreLoaded :
      (node other : Node)
      → is_better divide (rated divide other task) (rated divide node task) ≡ false
      → NoMoreLoaded node other
  is_better-NoMoreLoaded node other e =
      elim (Bool-cases (ltb (load_ratio divide node task) (load_ratio divide other task))) [
        | inl lower ↦ inl (ground (arith, lower))
        | inr same ↦ inr (ground (arith, e, same), ground (arith, e, same))
      ]

  -- If a node is chosen, it is an eligible candidate, and it is no more loaded than any eligible
  -- candidate: its load ratio is lower, or the same with no more tasks in flight.
  pub choose-Least :
      (dir : Directory) (node : Node)
      → choose divide dir task ≡ some node
      → (eligible node task ≡ true)
        × ((i : ℕ) × (get_elem? (get_candidates dir "push") i ≡ some node))
        × ((i : ℕ) (other : Node)
            → get_elem? (get_candidates dir "push") i ≡ some other
            → eligible other task ≡ true
            → NoMoreLoaded node other)
  unfolding choose
  choose-Least dir node e =
      elim (Option-cases (choose_from divide task (get_candidates dir "push") none)) [
        | inl nothing ↦ ground (arith, e, nothing)
        | inr (r, chosen) ↦
            let run = choose_from-Chooses (get_candidates dir "push") none r chosen in
            let same : r.node ≡ node = ground (arith, e, chosen) in
            elim run.among [
              | inr nowhere ↦ absurd nowhere
              | inl (i, there, fit, rating) ↦ (
                rw (sym same) fit,
                (i, rw (sym same) there),
                λ i other found fits.
                    let least : Least (get_candidates dir "push") (rated divide node task) =
                      rw (sym same) (subst (Least (get_candidates dir "push")) rating run.least) in
                    is_better-NoMoreLoaded node other (least i other found fits),
              )
            ]
      ]

  improve_some : (best : Option Best) (new : Best) → improve divide best new ≡ none → ⊥
  improve_some none new e = ground (arith, e)
  improve_some (some b) new e = ground (arith, e)

  none-eligible-cons :
      (node : Node) (nodes : List Node)
      → eligible node task ≡ false
      → ((i : ℕ) (other : Node) → get_elem? nodes i ≡ some other → eligible other task ≡ false)
      → (i : ℕ) (other : Node) → get_elem? (node ∷ nodes) i ≡ some other
      → eligible other task ≡ false
  none-eligible-cons node nodes unfit rest zero other found =
      subst (λ n. eligible n task ≡ false) (ground (arith, found)) unfit
  none-eligible-cons node nodes unfit rest (suc i) other found = rest i other found

  none-eligible :
      (nodes : List Node) (best : Option Best)
      → choose_from divide task nodes best ≡ none
      → (best ≡ none)
        × ((i : ℕ) (other : Node) → get_elem? nodes i ≡ some other → eligible other task ≡ false)
  unfolding choose_from
  none-eligible [] best e = (e, λ i other found. ground (arith, found))
  none-eligible (node ∷ nodes) best e = elim (Bool-cases (eligible node task)) [
    | inl fit ↦
        let new = rated divide node task in
        absurd (
          improve_some best new
            (none-eligible nodes (improve divide best new) (ground (arith, e, fit))).0)
    | inr unfit ↦
        let rest = none-eligible nodes best (ground (arith, e, unfit)) in
        (rest.0, none-eligible-cons node nodes unfit rest.1)
  ]

  -- If no node is chosen, then no candidate is eligible.
  pub choose-none :
      (dir : Directory)
      → choose divide dir task ≡ none
      → (i : ℕ) (other : Node) → get_elem? (get_candidates dir "push") i ≡ some other
      → eligible other task ≡ false
  unfolding choose
  choose-none dir e =
      elim (Option-cases (choose_from divide task (get_candidates dir "push") none)) [
        | inl nothing ↦ (none-eligible (get_candidates dir "push") none nothing).1
        | inr (r, chosen) ↦ ground (arith, e, chosen)
      ]
