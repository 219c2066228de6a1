-- ===== src/Workflow/Steps.antt =====
-- What a step of a sequence leaves as it was: the tasks, the count of steps and the budget.
use strij.Base.{
  ℕ, ◌≡◌, refl, ◌∙◌, List, none, some, if◌then◌else◌, Bool-cases, Option-cases, inl, inr, ◌⊎◌,
  String,
}
use strij.Task.{is_ok}
use strij.Workflow.{
  NamedTask, StatusOr, value, failure, FlowDirective, flow_continue, flow_jump, flow_exit, flow_end,
  resolve_flow_directive, step_then,
}
use strij.Workflow.Sequence.{
  Sequence, FrameContext, Progress, returned, goes_on, apply_directive, apply_completed_step,
  apply_outcome, after, resume, advance_call, advance_run, ChildOutcome, Execution, not_started,
  waits_for, ended_at_once, detached, is_awaited,
}

-- The tasks, the count and the budget are the same.
pub record Same (q q' : Sequence) : Type 0 where
  pub steps : q'.steps ≡ q.steps
  pub count : q'.transitions ≡ q.transitions
  pub budget : q'.transition_budget ≡ q.transition_budget

pub Same-trans : {a b c : Sequence} → Same a b → Same b c → Same a c
Same-trans s t = record {
  steps = t.steps ∙ s.steps;
  count = t.count ∙ s.count;
  budget = t.budget ∙ s.budget;
}

pub StatusOr-cases :
    {A : Type 0} (r : StatusOr A)
    → ((message : String) × (r ≡ failure message)) ⊎ ((a : A) × (r ≡ value a))
StatusOr-cases (failure message) = inl (message, refl)
StatusOr-cases (value a) = inr (a, refl)

module _ {W : Type 0} where
  abbrev pub KeptBy : Sequence → Progress W → Type 0
  KeptBy q (returned r q' w) = Same q q'
  KeptBy q (goes_on q' w) = Same q q'

  KeptBy-trans : {a b : Sequence} (p : Progress W) → Same a b → KeptBy b p → KeptBy a p
  KeptBy-trans (returned r q w) s k = Same-trans s k
  KeptBy-trans (goes_on q w) s k = Same-trans s k

  apply_directive-kept :
      (q : Sequence) (w : W) (step : NamedTask) (d : StatusOr FlowDirective)
      → KeptBy q (apply_directive q w step d)
  unfolding apply_directive
  apply_directive-kept q w step (failure message) = record {
    steps = refl;
    count = refl;
    budget = refl;
  }
  apply_directive-kept q w step (value flow_continue) = record {
    steps = refl;
    count = refl;
    budget = refl;
  }
  apply_directive-kept q w step (value (flow_jump target)) = record {
    steps = refl;
    count = refl;
    budget = refl;
  }
  apply_directive-kept q w step (value flow_exit) = record {
    steps = refl;
    count = refl;
    budget = refl;
  }
  apply_directive-kept q w step (value flow_end) = record {
    steps = refl;
    count = refl;
    budget = refl;
  }

  module _ (context : FrameContext W) where
    pub apply_completed_step-kept :
        (q : Sequence) (w : W) (step : NamedTask) (input raw : List ℕ) (directive : String)
        → KeptBy q (apply_completed_step context q w step input raw directive)
    unfolding apply_completed_step
    apply_completed_step-kept q w step input raw directive =
        elim (StatusOr-cases (context.transform_task_output step input raw q.scope w)) [
          | inl (message, e) ↦
              rw (apply_completed_step, e) (record { steps = refl; count = refl; budget = refl })
          | inr (output, e) ↦
              elim (StatusOr-cases (context.export_task_result step input output q.scope w)) [
                | inl (message, f) ↦
                    rw (apply_completed_step, e, f)
                      (record { steps = refl; count = refl; budget = refl })
                | inr (w', f) ↦
                    rw (apply_completed_step, e, f)
                      (KeptBy-trans _ (record { steps = refl; count = refl; budget = refl })
                        (apply_directive-kept (record q { step_input = none; data_value = output })
                          w' step (resolve_flow_directive q.steps directive)))
              ]
        ]

    after-kept : (q : Sequence) (p : Progress W) → KeptBy q p → Same q (after context p).0
    after-kept q (returned r q' w) k = k
    after-kept q (goes_on q' w) k = k

    apply_outcome-kept :
        (q : Sequence) (w : W) (step : NamedTask) (input : List ℕ) (outcome : ChildOutcome)
        → Same q (apply_outcome context q w step input outcome).0
    unfolding apply_outcome
    apply_outcome-kept q w step input outcome = elim (Bool-cases (is_ok outcome.status)) [
      | inr bad ↦ rw (apply_outcome, bad) (record { steps = refl; count = refl; budget = refl })
      | inl good ↦
          let awake = record q { waiting_child_id = none } in
          rw (apply_outcome, good)
            (after-kept q _ (
              KeptBy-trans _ (record { steps = refl; count = refl; budget = refl })
                (apply_completed_step-kept awake w step input outcome.body (step_then step))))
    ]

    resume-kept : (q : Sequence) (r : Sequence × W) → Same q r.0 → KeptBy q (resume context r)
    resume-kept q (q', w) s = elim (Option-cases q'.stored_failure) [
      | inr (f, e) ↦ rw (resume, e) (record { steps = s.steps; count = s.count; budget = s.budget })
      | inl e ↦ elim (Option-cases q'.waiting_child_id) [
        | inr (id, f) ↦ rw (resume, e, f) s
        | inl f ↦ rw (resume, e, f) s
      ]
    ]

    pub advance_call-kept :
        (q : Sequence) (step : NamedTask) (input : List ℕ) (r : Execution × W)
        → KeptBy q (advance_call context q step input r)
    unfolding advance_call
    advance_call-kept q step input (not_started message, w) = record {
      steps = refl;
      count = refl;
      budget = refl;
    }
    advance_call-kept q step input (waits_for id, w) =
        resume-kept q (record q { waiting_child_id = some id }, w)
          (record { steps = refl; count = refl; budget = refl })
    advance_call-kept q step input (ended_at_once outcome, w) =
        resume-kept q _ (apply_outcome-kept q w step input outcome)
    advance_call-kept q step input (detached, w) =
        resume-kept q (q, w) (record { steps = refl; count = refl; budget = refl })

    -- The rest of a run that is not awaited.
    abbrev detach : NamedTask → List ℕ → Progress W → Progress W
    detach step input (returned r q w) = returned r q w
    detach step input (goes_on q w) =
        if is_awaited context step
        then goes_on q w
        else apply_completed_step context q w step input input (step_then step)

    detach-kept :
        (q : Sequence) (step : NamedTask) (input : List ℕ) (p : Progress W)
        → KeptBy q p
        → KeptBy q (detach step input p)
    detach-kept q step input (returned r q' w) k = k
    detach-kept q step input (goes_on q' w) k = elim (Bool-cases (is_awaited context step)) [
      | inl awaited ↦ rw (detach, awaited) k
      | inr free ↦
          rw (detach, free)
            (KeptBy-trans _ k (apply_completed_step-kept q' w step input input (step_then step)))
    ]

    pub advance_run-kept :
        (q : Sequence) (step : NamedTask) (input : List ℕ) (r : Execution × W)
        → KeptBy q (advance_run context q step input r)
    unfolding advance_run
    advance_run-kept q step input (not_started message, w) = record {
      steps = refl;
      count = refl;
      budget = refl;
    }
    advance_run-kept q step input (waits_for id, w) =
        resume-kept q (record q { waiting_child_id = some id }, w)
          (record { steps = refl; count = refl; budget = refl })
    advance_run-kept q step input (ended_at_once outcome, w) =
        detach-kept q step input _ (resume-kept q _ (apply_outcome-kept q w step input outcome))
    advance_run-kept q step input (detached, w) =
        detach-kept q step input (goes_on q w)
          (record { steps = refl; count = refl; budget = refl })
