-- ===== src/Workflow/Rounds.antt =====
-- The loop of `SequenceFrame::Advance` ends within its budget, if what its containers do ends.
use strij.Base.{
  ℕ, zero, suc, ◌+◌, ◌≡◌, ◌≤◌, refl, subst, sym, true, false, List, [], ◌∷◌, Option, none, some,
  arith, ltb, get_elem?, Bool-cases, Option-cases, inl, inr, String,
}
use strij.Workflow.{
  NamedTask, StatusOr, value, failure, FrameResult, suspended, completed_with, ended_with,
  failed_with, LoopVariables, step_then, run_body, TaskBody, call_body, set_body, switch_body,
  other_body, do_body, for_body, fork_body,
}
use strij.Workflow.Sequence.{Sequence, Progress, returned, goes_on, terminal_result}
use strij.Workflow.Frames.{
  Frame, Child, no_child, child, sequence_frame, Owner, Advanced, ContainerProgress,
  container_returned, container_goes_on, with_child, materialize, after_container,
}
use strij.Workflow.Advance.{
  child_of, advance_container, finish_switch, finish_set, run_body_of, run_step, count_step,
  stopped, run_steps, advance_sequence,
}
use strij.Workflow.Steps.{
  Same, Same-trans, KeptBy, StatusOr-cases, apply_completed_step-kept, advance_call-kept,
  advance_run-kept,
}

-- There is a value, and it satisfies the predicate.
abbrev pub Gives {ℓ} : {A : Type ℓ} → (A → Type 0) → Option A → Type 0
Gives P none = ⊥
Gives P (some a) = P a

pub Gives-result :
    {A : Type 0} (P : A → Type 0) (o : Option A) → Gives P o → (a : A) × (o ≡ some a) × P a
Gives-result P none g = elim g [ ]
Gives-result P (some a) g = (a, refl, g)

-- The child, if there is one, satisfies `P`.
abbrev pub ChildIs : (Frame → Type 0) → Child → Type 0
ChildIs P no_child = Unit {0}
ChildIs P (child f) = P f

-- Whatever container a step makes satisfies `P`.
abbrev pub Makes : (Frame → Type 0) → NamedTask → Type 0
Makes P step =
    (budget : ℕ) (scope : List LoopVariables) (input : List ℕ)
    → ChildIs P (materialize step budget scope input step.body)

abbrev pub AllMake : (Frame → Type 0) → List NamedTask → Type 0
AllMake P [] = Unit {0}
AllMake P (step ∷ steps) = Makes P step × AllMake P steps

get_elem?-Makes :
    (P : Frame → Type 0) (steps : List NamedTask) (i : ℕ) (step : NamedTask)
    → AllMake P steps
    → get_elem? steps i ≡ some step
    → Makes P step
get_elem?-Makes P [] i step all e = ground (arith, e)
get_elem?-Makes P (s ∷ steps) zero step all e = subst (Makes P) (ground (arith, e)) all.0
get_elem?-Makes P (s ∷ steps) (suc i) step all e = get_elem?-Makes P steps i step all.1 e

-- A sequence whose steps make containers that satisfy `P`, with such a container or none.
abbrev pub SequenceIs : (Frame → Type 0) → Frame → Type 0
SequenceIs P (sequence_frame q c) = AllMake P q.steps × ChildIs P c
SequenceIs P f = ⊥

module _ {W : Type 0} (P : Frame → Type 0) where
  abbrev KeptWith : Sequence → ContainerProgress W → Type 0
  KeptWith q (container_returned r q' c w) = Same q q' × ChildIs P c
  KeptWith q (container_goes_on q' c w) = Same q q' × ChildIs P c

  with_child-kept :
      (q : Sequence) (c : Child) (p : Progress W)
      → KeptBy q p
      → ChildIs P c
      → KeptWith q (with_child c p)
  with_child-kept q c (returned r q' w) k is = (k, is)
  with_child-kept q c (goes_on q' w) k is = (k, is)

  KeptWith-trans :
      {a b : Sequence} (p : ContainerProgress W) → Same a b → KeptWith b p → KeptWith a p
  KeptWith-trans (container_returned r q c w) s (k, is) = (Same-trans s k, is)
  KeptWith-trans (container_goes_on q c w) s (k, is) = (Same-trans s k, is)

  Gives-trans :
      {a b : Sequence} (o : Option (ContainerProgress W))
      → Same a b
      → Gives (KeptWith b) o
      → Gives (KeptWith a) o
  Gives-trans (some p) s k = KeptWith-trans p s k
  Gives-trans none s k = k

  module _ (owner : Owner W) (nested : Frame → W → Option (Advanced W))
      (nested-returns : (f : Frame) (w : W) → P f → Gives (λ a. P a.frame) (nested f w)) where
    after_container-kept :
        (q : Sequence) (step : NamedTask) (input : List ℕ) (r : FrameResult) (f : Frame) (w : W)
        → P f
        → KeptWith q (after_container owner q step input r f w)
    unfolding after_container
    after_container-kept q step input suspended f w is =
        (record { steps = refl; count = refl; budget = refl }, is)
    after_container-kept q step input (failed_with e) f w is =
        (record { steps = refl; count = refl; budget = refl }, is)
    after_container-kept q step input (ended_with v) f w is =
        (record { steps = refl; count = refl; budget = refl }, is)
    after_container-kept q step input (completed_with v) f w is =
        with_child-kept q no_child _
          (apply_completed_step-kept owner.context q w step input v (step_then step)) tt

    advance_container-kept :
        (q : Sequence) (step : NamedTask) (input : List ℕ) (c : Child) (w : W)
        → ChildIs P c
        → Gives (KeptWith q) (advance_container owner nested q step input c w)
    unfolding advance_container
    advance_container-kept q step input no_child w is =
        (record { steps = refl; count = refl; budget = refl }, tt)
    advance_container-kept q step input (child f) w is =
        let (a, e, good) = Gives-result _ (nested f w) (nested-returns f w is) in
        rw (advance_container, e) (after_container-kept q step input a.outcome a.frame a.owner good)

    child_of-kept :
        (q : Sequence) (step : NamedTask) (input : List ℕ) (c : Child)
        → Makes P step
        → ChildIs P c
        → ChildIs P (child_of owner q step input c)
    child_of-kept q step input no_child makes is = makes q.for_iteration_budget q.scope input
    child_of-kept q step input (child f) makes is = is

    finish_set-kept :
        (q : Sequence) (c : Child) (w : W) (step : NamedTask) (input : List ℕ)
        (r : StatusOr (List ℕ))
        → ChildIs P c
        → KeptWith q (finish_set owner nested q c w step input r)
    finish_set-kept q c w step input (failure message) is =
        (record { steps = refl; count = refl; budget = refl }, is)
    finish_set-kept q c w step input (value output) is =
        with_child-kept q c _
          (apply_completed_step-kept owner.context q w step input output (step_then step)) is

    finish_switch-kept :
        (q : Sequence) (c : Child) (w : W) (step : NamedTask) (input : List ℕ)
        (r : StatusOr (Option String))
        → ChildIs P c
        → KeptWith q (finish_switch owner nested q c w step input r)
    finish_switch-kept q c w step input (failure message) is =
        (record { steps = refl; count = refl; budget = refl }, is)
    finish_switch-kept q c w step input (value none) is =
        with_child-kept q c _
          (apply_completed_step-kept owner.context q w step input input (step_then step)) is
    finish_switch-kept q c w step input (value (some directive)) is =
        with_child-kept q c _
          (apply_completed_step-kept owner.context q w step input input directive) is

    run_body_of-kept :
        (q : Sequence) (c : Child) (w : W) (step : NamedTask) (input : List ℕ) (body : TaskBody)
        → Makes P step
        → ChildIs P c
        → Gives (KeptWith q) (run_body_of owner nested q c w step input body)
    unfolding run_body_of
    run_body_of-kept q c w step input call_body makes is =
        with_child-kept q c _ (advance_call-kept owner.context q step input _) is
    run_body_of-kept q c w step input (run_body await) makes is =
        with_child-kept q c _ (advance_run-kept owner.context q step input _) is
    run_body_of-kept q c w step input set_body makes is =
        finish_set-kept q c w step input (owner.context.evaluate_set step input q.scope w) is
    run_body_of-kept q c w step input switch_body makes is =
        finish_switch-kept q c w step input
          (owner.context.select_switch_directive step input q.scope w) is
    run_body_of-kept q c w step input other_body makes is =
        (record { steps = refl; count = refl; budget = refl }, is)
    run_body_of-kept q c w step input (do_body tasks) makes is =
        advance_container-kept q step input _ w (child_of-kept q step input c makes is)
    run_body_of-kept q c w step input (fork_body tasks compete) makes is =
        advance_container-kept q step input _ w (child_of-kept q step input c makes is)
    run_body_of-kept q c w step input (for_body has_while tasks) makes is =
        advance_container-kept q step input _ w (child_of-kept q step input c makes is)

    run_step-kept :
        (q : Sequence) (c : Child) (w : W) (step : NamedTask)
        → Makes P step
        → ChildIs P c
        → Gives (KeptWith q) (run_step owner nested q c w step)
    unfolding run_step
    run_step-kept q c w step makes is =
        elim (StatusOr-cases (owner.context.evaluate_condition step q.data_value q.scope w)) [
          | inl (message, e) ↦
              rw (run_step, e) (record { steps = refl; count = refl; budget = refl }, is)
          | inr (false, e) ↦
              rw (run_step, e) (record { steps = refl; count = refl; budget = refl }, is)
          | inr (true, e) ↦
              elim (StatusOr-cases
                (owner.context.transform_task_input step q.data_value q.scope w)) [
                  | inl (message, f) ↦
                      rw (run_step, e, f) (record { steps = refl; count = refl; budget = refl }, is)
                  | inr (input, f) ↦
                      rw (run_step, e, f)
                        (Gives-trans _ (record { steps = refl; count = refl; budget = refl })
                          (run_body_of-kept (record q { step_input = some input }) c w step input
                            step.body makes is))
                ]
        ]

    -- A round counts a transition, and goes on only within the budget.
    abbrev Counted : Sequence → ContainerProgress W → Type 0
    Counted q (container_returned r q' c w) = (q'.steps ≡ q.steps) × ChildIs P c
    Counted q (container_goes_on q' c w) =
        (q'.steps ≡ q.steps)
        × ChildIs P c
        × (q'.transitions ≡ q.transitions + 1)
        × (q'.transition_budget ≡ q.transition_budget)
        × (q.transitions + 1 ≤ q.transition_budget)

    KeptWith-Counted :
        (q : Sequence) (p : ContainerProgress W)
        → q.transitions + 1 ≤ q.transition_budget
        → KeptWith (record q { transitions = q.transitions + 1 }) p
        → Counted q p
    KeptWith-Counted q (container_returned r q' c w) within (s, is) = (s.steps, is)
    KeptWith-Counted q (container_goes_on q' c w) within (s, is) =
        (s.steps, is, s.count, s.budget, within)

    count_step-Counted :
        (q : Sequence) (c : Child) (w : W) (step : NamedTask)
        → Makes P step
        → ChildIs P c
        → Gives (Counted q) (count_step owner nested q c w step)
    unfolding count_step
    count_step-Counted q c w step makes is =
        elim (Bool-cases (ltb q.transition_budget (q.transitions + 1))) [
          | inl over ↦ rw (count_step, over) (refl, is)
          | inr within ↦
              let counted = record q { transitions = q.transitions + 1 } in
              let (p, e, kept) =
                Gives-result _ (run_step owner nested counted c w step)
                  (run_step-kept counted c w step makes is) in
              rw (count_step, within, e) (KeptWith-Counted q p (ground (arith, within)) kept)
        ]

    abbrev pub Leaves : Advanced W → Type 0
    Leaves a = SequenceIs P a.frame

    stopped-steps :
        (q : Sequence) (r : FrameResult) (q' : Sequence)
        → stopped owner nested q ≡ some (r, q')
        → q'.steps ≡ q.steps
    stopped-steps q r q' e = ground (arith, e)

    -- What the loop does after a round.
    abbrev next : ℕ → ContainerProgress W → Option (Advanced W)
    next fuel (container_returned r q' c' w') =
        some (record { outcome = r; frame = sequence_frame q' c'; owner = w' })
    next fuel (container_goes_on q' c' w') = run_steps owner nested fuel q' c' w'

    -- The loop with this fuel returns.
    abbrev LoopReturns : ℕ → Type 0
    LoopReturns fuel =
        (q : Sequence) (c : Child) (w : W)
        → AllMake P q.steps
        → ChildIs P c
        → q.transitions ≤ q.transition_budget
        → q.transition_budget + 2 ≤ fuel + q.transitions
        → Gives Leaves (run_steps owner nested fuel q c w)

    next-Returns :
        (fuel : ℕ) (q : Sequence) (p : ContainerProgress W)
        → LoopReturns fuel
        → AllMake P q.steps
        → q.transition_budget + 2 ≤ suc fuel + q.transitions
        → Counted q p
        → Gives Leaves (next fuel p)
    next-Returns fuel q (container_returned r q' c' w') loop all enough (s, is) =
        (subst (AllMake P) (sym s) all, is)
    next-Returns fuel q (container_goes_on q' c' w') loop all enough (s, is, n, b, within) =
        loop q' c' w' (subst (AllMake P) (sym s) all) is (omega (arith, n, b, within))
          (omega (arith, n, b, enough))

    run_steps-Returns : (fuel : ℕ) → LoopReturns fuel
    unfolding run_steps
    run_steps-Returns zero q c w all is within enough = ground (arith, within, enough)
    run_steps-Returns (suc fuel) q c w all is within enough =
        elim (Option-cases (get_elem? q.steps q.cursor)) [
          | inl e ↦ rw (run_steps, e) (all, is)
          | inr (step, e) ↦ elim (Option-cases (stopped owner nested q)) [
            | inr ((r, q'), f) ↦
                rw (run_steps, e, f) (subst (AllMake P) (sym (stopped-steps q r q' f)) all, is)
            | inl f ↦
                let (p, g, counted) = Gives-result _ (count_step owner nested q c w step) (
                  count_step-Counted q c w step (get_elem?-Makes P q.steps q.cursor step all e)
                    is) in
                rw (run_steps, e, f, g)
                  (next-Returns fuel q p (run_steps-Returns fuel) all enough counted)
          ]
        ]

    pub advance_sequence-Returns :
        (q : Sequence) (c : Child) (w : W)
        → AllMake P q.steps
        → ChildIs P c
        → Gives Leaves (advance_sequence owner nested q c w)
    unfolding advance_sequence
    advance_sequence-Returns q c w all is = elim (Option-cases q.pending_result) [
      | inr (r, e) ↦ rw (advance_sequence, e) (all, is)
      | inl e ↦ elim (Option-cases (terminal_result q)) [
        | inr (r, f) ↦ rw (advance_sequence, e, f) (all, is)
        | inl f ↦
            rw (advance_sequence, e, f)
              (run_steps-Returns (suc (suc q.transition_budget)) (record q { transitions = 0 }) c w
                all is (omega arith) (omega arith))
      ]
    ]
