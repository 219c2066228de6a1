-- ===== src/Workflow/Advance.antt =====
-- `SequenceFrame::Advance` and `Abandon` of frame.cc, and the frames together.
use strij.Base.{
  ℕ, zero, suc, ◌+◌, String, true, false, List, Option, none, some, ltb, get_elem?, if◌then◌else◌,
  str_append,
}
use strij.Task.{internal, unimplemented}
use strij.Workflow.{
  TaskBody, NamedTask, FrameResult, StatusOr, value, failure, suspended, completed_with,
  failed_with, completed, failed, step_then, call_body, run_body, set_body, switch_body, other_body,
}
use strij.Workflow.Sequence.{
  Sequence, fail_step, terminal_result, apply_completed_step, advance_call, advance_run,
}
use strij.Workflow.Frames.{
  Frame, Child, no_child, child, sequence_frame, Owner, Advanced, ContainerProgress,
  container_returned, container_goes_on, with_child, materialize, after_container,
}

module _ {W : Type 0} (owner : Owner W) where
  -- The child that a container step has, or else the one that it makes.
  abbrev pub child_of : Sequence → NamedTask → List ℕ → Child → Child
  child_of q step input no_child = materialize step q.for_iteration_budget q.scope input step.body
  child_of q step input (child f) = child f

  module _ (nested : Frame → W → Option (Advanced W)) where
    -- `advanceContainer`; a step that is no container has no child.
    unfoldable pub advance_container :
        Sequence → NamedTask → List ℕ → Child → W → Option (ContainerProgress W)
    unfolding after_container
    advance_container q step input no_child w = some (container_goes_on q no_child w)
    advance_container q step input (child f) w = elim (nested f w) [
      | none ↦ none
      | some advanced ↦
          some (after_container owner q step input advanced.outcome advanced.frame advanced.owner)
    ]

    abbrev pub finish_switch :
        Sequence → Child → W → NamedTask → List ℕ → StatusOr (Option String) → ContainerProgress W
    finish_switch q c w step input (failure message) =
        with_child c (fail_step q w internal step message)
    finish_switch q c w step input (value none) =
        with_child c (apply_completed_step owner.context q w step input input (step_then step))
    finish_switch q c w step input (value (some directive)) =
        with_child c (apply_completed_step owner.context q w step input input directive)

    abbrev pub finish_set :
        Sequence → Child → W → NamedTask → List ℕ → StatusOr (List ℕ) → ContainerProgress W
    finish_set q c w step input (failure message) =
        with_child c (fail_step q w internal step message)
    finish_set q c w step input (value output) =
        with_child c (apply_completed_step owner.context q w step input output (step_then step))

    -- The body of a step, once its input is transformed.
    unfoldable pub run_body_of :
        Sequence → Child → W → NamedTask → List ℕ → TaskBody → Option (ContainerProgress W)
    unfolding advance_container apply_completed_step advance_call advance_run materialize
    run_body_of q c w step input call_body = some (
        with_child c (
          advance_call owner.context q step input
            (owner.context.execute_call step input q.scope w)))
    run_body_of q c w step input (run_body await) = some (
        with_child c
          (advance_run owner.context q step input (owner.context.execute_run step input q.scope w)))
    run_body_of q c w step input set_body =
        some (finish_set q c w step input (owner.context.evaluate_set step input q.scope w))
    run_body_of q c w step input switch_body = some (
        finish_switch q c w step input (owner.context.select_switch_directive step input q.scope w))
    run_body_of q c w step input other_body = some (
        with_child c (
          fail_step q w unimplemented step
            "this task kind is not supported in the current workflow slice"))
    run_body_of q c w step input container =
        advance_container q step input (child_of q step input c) w

    -- A round of the loop of `Advance` at a step, within the budget.
    unfoldable pub run_step : Sequence → Child → W → NamedTask → Option (ContainerProgress W)
    unfolding run_body_of
    run_step q c w step = elim (owner.context.evaluate_condition step q.data_value q.scope w) [
      | failure message ↦ some (with_child c (fail_step q w internal step message))
      | value false ↦ some (container_goes_on (record q { cursor = q.cursor + 1 }) c w)
      | value true ↦ elim (owner.context.transform_task_input step q.data_value q.scope w) [
        | failure message ↦ some (with_child c (fail_step q w internal step message))
        | value input ↦ run_body_of (record q { step_input = some input }) c w step input step.body
      ]
    ]

    abbrev pub over_budget : NamedTask → String
    over_budget step =
        str_append "the sequence exceeded its synchronous step budget at step '"
          (str_append step.name "'")

    -- A round of the loop of `Advance` at a step.
    unfoldable pub count_step : Sequence → Child → W → NamedTask → Option (ContainerProgress W)
    unfolding run_step
    count_step q c w step =
        let counted = record q { transitions = q.transitions + 1 } in
        if ltb q.transition_budget counted.transitions
        then some (with_child c (fail_step counted w internal step (over_budget step)))
        else run_step counted c w step

    -- The tests at the head of the loop: a result that waits, a child that is waited for, a failure.
    abbrev pub stopped : Sequence → Option (FrameResult × Sequence)
    stopped q = elim q.pending_result [
      | some r ↦ some (r, record q { pending_result = none })
      | none ↦ elim q.waiting_child_id [
        | some id ↦ some (suspended, q)
        | none ↦ elim q.stored_failure [
          | some f ↦ some (failed_with f, record q { lifecycle = failed })
          | none ↦ none
        ]
      ]
    ]

    -- The loop of `Advance`.
    unfoldable pub run_steps : ℕ → Sequence → Child → W → Option (Advanced W)
    unfolding count_step
    run_steps zero q c w = none
    run_steps (suc fuel) q c w = elim (get_elem? q.steps q.cursor) [
      | none ↦ some (record {
        outcome = completed_with q.data_value;
        frame = sequence_frame (record q { lifecycle = completed }) c;
        owner = w;
      })
      | some step ↦ elim (stopped q) [
        | some (r, q') ↦ some (record { outcome = r; frame = sequence_frame q' c; owner = w })
        | none ↦ elim (count_step q c w step) [
          | none ↦ none
          | some (container_returned r q' c' w') ↦
              some (record { outcome = r; frame = sequence_frame q' c'; owner = w' })
          | some (container_goes_on q' c' w') ↦ run_steps fuel q' c' w'
        ]
      ]
    ]

    -- `Advance`; the loop counts at most one transition more than its budget allows, and has one
    -- round more to end.
    unfoldable pub advance_sequence : Sequence → Child → W → Option (Advanced W)
    unfolding run_steps
    advance_sequence q c w = elim q.pending_result [
      | some r ↦ some (record {
        outcome = r;
        frame = sequence_frame (record q { pending_result = none }) c;
        owner = w;
      })
      | none ↦ elim (terminal_result q) [
        | some r ↦ some (record { outcome = r; frame = sequence_frame q c; owner = w })
        | none ↦ run_steps (suc (suc q.transition_budget)) (record q { transitions = 0 }) c w
      ]
    ]
