-- ===== src/Workflow/Sequence.antt =====
-- `SequenceFrame` of frame.cc, without the container that a step may have running: the state of a
-- sequence, the outcome of a child task, and the steps that need no frame of their own.
use strij.Base.{
  ℕ, ◌+◌, String, Bool, true, false, not, List, Option, none, some, get_elem?, if◌then◌else◌,
}
use strij.Task.{TaskStatus, internal, is_ok}
use strij.Workflow.{
  NamedTask, LoopVariables, Lifecycle, ExecutionFailure, FrameResult, StatusOr, value, failure,
  suspended, completed_with, ended_with, failed_with, completed, failed, abandoned, FlowDirective,
  flow_continue, flow_jump, flow_exit, flow_end, resolve_flow_directive, step_then, run_body,
}

-- `ChildOutcome`
pub record ChildOutcome : Type 0 where
  pub body : List ℕ
  pub reason : String
  pub status : TaskStatus

-- What `ExecuteCall` and `ExecuteRun` do to the sequence that calls them: they fail, leave it
-- waiting for a child, apply the outcome of a child that ended at once, or start a run and go on.
pub data Execution : Type 0 where
  not_started : String → Execution
  waits_for : String → Execution
  ended_at_once : ChildOutcome → Execution
  detached : Execution

-- `FrameContext`, the frame's owner, whose state is of the type `W`
pub record FrameContext (W : Type 0) : Type 0 where
  pub evaluate_condition : NamedTask → List ℕ → List LoopVariables → W → StatusOr Bool
  pub transform_task_input : NamedTask → List ℕ → List LoopVariables → W → StatusOr (List ℕ)
  pub transform_task_output :
      NamedTask → List ℕ → List ℕ → List LoopVariables → W → StatusOr (List ℕ)
  pub export_task_result : NamedTask → List ℕ → List ℕ → List LoopVariables → W → StatusOr W
  pub evaluate_set : NamedTask → List ℕ → List LoopVariables → W → StatusOr (List ℕ)
  pub select_switch_directive :
      NamedTask → List ℕ → List LoopVariables → W → StatusOr (Option String)
  pub execute_call : NamedTask → List ℕ → List LoopVariables → W → Execution × W
  pub execute_run : NamedTask → List ℕ → List LoopVariables → W → Execution × W
  pub forget_child : String → W → W

-- `SequenceFrame`
pub record Sequence : Type 0 where
  pub lifecycle : Lifecycle
  pub steps : List NamedTask
  pub cursor : ℕ
  pub data_value : List ℕ
  pub step_input : Option (List ℕ)
  pub waiting_child_id : Option String
  pub scope : List LoopVariables
  pub stored_failure : Option ExecutionFailure
  pub pending_result : Option FrameResult
  pub transitions : ℕ
  pub transition_budget : ℕ
  pub for_iteration_budget : ℕ

-- A step returns a result from `Advance`, or the loop goes on.
pub data Progress (W : Type 0) : Type 0 where
  returned : FrameResult → Sequence → W → Progress W
  goes_on : Sequence → W → Progress W

-- The failure that `failStep` stores.
abbrev pub step_failure : TaskStatus → NamedTask → String → ExecutionFailure
step_failure status step message = record {
  status = status;
  is_own = true;
  step = step.name;
  message = message;
  composed = false;
}

abbrev pub store_failure : Sequence → ExecutionFailure → Sequence
store_failure q f = record q { stored_failure = some f; lifecycle = failed }

-- `currentStepName`
abbrev pub current_step_name : Sequence → String
current_step_name q = elim (get_elem? q.steps q.cursor) [ none ↦ "" | some step ↦ step.name ]

-- `terminalResult`
abbrev pub terminal_result : Sequence → Option FrameResult
terminal_result q = elim q.lifecycle [
  | failed ↦ elim q.stored_failure [ none ↦ none | some f ↦ some (failed_with f) ]
  | abandoned ↦ some suspended
  | completed ↦ some (completed_with q.data_value)
  | _ ↦ none
]

module _ {W : Type 0} where
  -- `failStep`
  abbrev pub fail_step : Sequence → W → TaskStatus → NamedTask → String → Progress W
  fail_step q w status step message =
      let f = step_failure status step message in returned (failed_with f) (store_failure q f) w

  -- `applyFlowDirective`, with the directive resolved
  unfoldable pub apply_directive : Sequence → W → NamedTask → StatusOr FlowDirective → Progress W
  apply_directive q w step (failure message) = fail_step q w internal step message
  apply_directive q w step (value flow_continue) = goes_on (record q { cursor = q.cursor + 1 }) w
  apply_directive q w step (value (flow_jump target)) = goes_on (record q { cursor = target }) w
  apply_directive q w step (value flow_exit) =
      goes_on
        (record q { pending_result = some (completed_with q.data_value); lifecycle = completed }) w
  apply_directive q w step (value flow_end) =
      goes_on (record q { pending_result = some (ended_with q.data_value); lifecycle = completed })
        w

  -- `applyFlowDirective`
  abbrev pub apply_flow_directive : Sequence → W → NamedTask → String → Progress W
  apply_flow_directive q w step directive =
      apply_directive q w step (resolve_flow_directive q.steps directive)

  module _ (context : FrameContext W) where
    -- `applyCompletedStep`, with the transformed input of the step
    unfoldable pub apply_completed_step :
        Sequence → W → NamedTask → List ℕ → List ℕ → String → Progress W
    unfolding apply_directive resolve_flow_directive
    apply_completed_step q w step input raw_output directive =
        let cleared = record q { step_input = none } in
        elim (context.transform_task_output step input raw_output q.scope w) [
          | failure message ↦ fail_step cleared w internal step message
          | value transformed ↦ elim (context.export_task_result step input transformed q.scope w) [
            | failure message ↦ fail_step cleared w internal step message
            | value w' ↦
                apply_flow_directive (record cleared { data_value = transformed }) w' step directive
          ]
        ]

    -- The sequence and the owner after a step; `ApplyOutcome` drops the result.
    abbrev pub after : Progress W → Sequence × W
    after (returned r q w) = (q, w)
    after (goes_on q w) = (q, w)

    -- `ApplyOutcome`, at the step that waits, with its transformed input
    unfoldable pub apply_outcome : Sequence → W → NamedTask → List ℕ → ChildOutcome → Sequence × W
    unfolding apply_completed_step
    apply_outcome q w step input outcome =
        let awake = record q { waiting_child_id = none } in
        if not (is_ok outcome.status)
        then (store_failure awake (step_failure outcome.status step outcome.reason), w)
        else after (apply_completed_step awake w step input outcome.body (step_then step))

    -- The end of `advanceCall` and `advanceRun`: what the owner left in the sequence.
    abbrev pub resume : Sequence × W → Progress W
    resume (q, w) = elim q.stored_failure [
      | some f ↦ returned (failed_with f) (record q { lifecycle = failed }) w
      | none ↦ elim q.waiting_child_id [ some id ↦ returned suspended q w | none ↦ goes_on q w ]
    ]

    -- `advanceCall`; `detached` is an owner that neither waits nor ends.
    unfoldable pub advance_call : Sequence → NamedTask → List ℕ → Execution × W → Progress W
    unfolding apply_outcome
    advance_call q step input (not_started message, w) = fail_step q w internal step message
    advance_call q step input (waits_for id, w) =
        resume (record q { waiting_child_id = some id }, w)
    advance_call q step input (ended_at_once outcome, w) =
        resume (apply_outcome q w step input outcome)
    advance_call q step input (detached, w) = resume (q, w)

    abbrev pub is_awaited : NamedTask → Bool
    is_awaited step = elim step.body [
      | run_body await ↦ elim await [ none ↦ true | some waits ↦ waits ]
      | _ ↦ true
    ]

    -- `advanceRun`
    unfoldable pub advance_run : Sequence → NamedTask → List ℕ → Execution × W → Progress W
    unfolding advance_call
    advance_run q step input (not_started message, w) = fail_step q w internal step message
    advance_run q step input (waits_for id, w) = resume (record q { waiting_child_id = some id }, w)
    advance_run q step input (ended_at_once outcome, w) =
        elim (resume (apply_outcome q w step input outcome)) [
          | returned r q' w' ↦ returned r q' w'
          | goes_on q' w' ↦
              if is_awaited step
              then goes_on q' w'
              else apply_completed_step q' w' step input input (step_then step)
        ]
    advance_run q step input (detached, w) =
        if is_awaited step
        then goes_on q w
        else apply_completed_step q w step input input (step_then step)
