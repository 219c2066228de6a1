-- ===== src/Workflow/Frames.antt =====
-- The frames of frame.cc: sequences with the container that their step runs, loops and forks, and
-- `Advance`. What a nested `Advance` does is the argument `nested` of the loops, which have fuel of
-- their own; `advance` ties the knot, with fuel for the depth of the nesting. `none` is lack of fuel.
use strij.Base.{ℕ, String, Bool, false, List, [], ◌∷◌, Option, none}
use strij.Workflow.{
  TaskBody, Tasks, NamedTask, named_tasks, LoopVariables, Lifecycle, ExecutionFailure, FrameResult,
  StatusOr, suspended, completed_with, ended_with, failed_with, active, step_then, do_body,
  fork_body, for_body, no_tasks, task_and,
}
use strij.Workflow.Sequence.{
  Sequence, FrameContext, Progress, returned, goes_on, store_failure, apply_completed_step,
}

-- `ForFrame`, without the sequence of its current iteration
pub record Loop : Type 0 where
  pub lifecycle : Lifecycle
  pub task : NamedTask
  pub has_while : Bool
  pub body : List NamedTask
  pub scope : List LoopVariables
  pub started : Bool
  pub items : List (List ℕ)
  pub next_index : ℕ
  pub accumulator : List ℕ
  pub iteration_scope : Option LoopVariables
  pub stored_failure : Option ExecutionFailure
  pub iterations : ℕ
  pub iteration_budget : ℕ

-- `ForkFrame`, without its branches
pub record Fork : Type 0 where
  pub lifecycle : Lifecycle
  pub compete : Bool
  pub for_iteration_budget : ℕ

mutual
  pub data Frame : Type 0 where
    sequence_frame : Sequence → Child → Frame
    for_frame : Loop → Child → Frame
    fork_frame : Fork → Branches → Frame

  -- The container that a sequence runs, or the body that a loop runs.
  pub data Child : Type 0 where
    no_child : Child
    child : Frame → Child

  -- Branches with their names and their results, in declaration order.
  pub data Branches : Type 0 where
    no_branches : Branches
    branch : String → Option (List ℕ) → Frame → Branches → Branches

-- The rest of `FrameContext`: what loops ask their owner, and what JSON says of a value.
-- `elements` are those of an array, none of them for null, and it is `none` for other values.
pub record Owner (W : Type 0) : Type 0 where
  pub context : FrameContext W
  pub evaluate_for_in : NamedTask → List ℕ → List LoopVariables → W → StatusOr (List ℕ)
  pub evaluate_for_while :
      NamedTask → List ℕ → LoopVariables → List LoopVariables → W → StatusOr Bool
  pub loop_names : NamedTask → String × String
  pub is_json : List ℕ → Bool
  pub elements : List ℕ → Option (List (List ℕ))

-- `kDefaultSynchronousTransitionBudget`
abbrev pub default_budget : ℕ
default_budget = 100000

-- A `SequenceFrame` that was created and entered.
abbrev pub new_sequence : ℕ → List NamedTask → List LoopVariables → List ℕ → Sequence
new_sequence for_iteration_budget steps scope data_value = record {
  lifecycle = active;
  steps = steps;
  cursor = 0;
  data_value = data_value;
  step_input = none;
  waiting_child_id = none;
  scope = scope;
  stored_failure = none;
  pending_result = none;
  transitions = 0;
  transition_budget = default_budget;
  for_iteration_budget = for_iteration_budget;
}

-- The branches that `ForkFrame::Enter` creates, one for each declaration.
unfoldable pub enter_branches : Tasks → ℕ → List LoopVariables → List ℕ → Branches
enter_branches no_tasks budget scope input = no_branches
enter_branches (task_and name directive rest body tasks) budget scope input =
    branch name none
      (sequence_frame
        (new_sequence budget
          (record { name = name; then_directive = directive; rest = rest; body = body } ∷ []) scope
          input)
        no_child)
      (enter_branches tasks budget scope input)

-- `materializeChild`, with the `for_iteration_budget_` of the sequence
unfoldable pub materialize : NamedTask → ℕ → List LoopVariables → List ℕ → TaskBody → Child
unfolding enter_branches
materialize step budget scope input (do_body tasks) =
    child (sequence_frame (new_sequence budget (named_tasks tasks) scope input) no_child)
materialize step budget scope input (fork_body tasks compete) = child (
    fork_frame (record { lifecycle = active; compete = compete; for_iteration_budget = budget })
      (enter_branches tasks budget scope input))
materialize step budget scope input (for_body has_while tasks) = child (
    for_frame
      (record {
        lifecycle = active;
        task = step;
        has_while = has_while;
        body = named_tasks tasks;
        scope = scope;
        started = false;
        items = [];
        next_index = 0;
        accumulator = input;
        iteration_scope = none;
        stored_failure = none;
        iterations = 0;
        iteration_budget = budget;
      })
      no_child)
materialize step budget scope input other = no_child

-- What `Advance` leaves: its result, the frame and the owner.
pub record Advanced (W : Type 0) : Type 0 where
  pub outcome : FrameResult
  pub frame : Frame
  pub owner : W

-- A failure that a container passes on is not its own.
abbrev pub passed_on : ExecutionFailure → ExecutionFailure
passed_on f = record f { is_own = false }

-- What `advanceContainer` makes of the sequence, with the container that is left.
pub data ContainerProgress (W : Type 0) : Type 0 where
  container_returned : FrameResult → Sequence → Child → W → ContainerProgress W
  container_goes_on : Sequence → Child → W → ContainerProgress W

abbrev pub with_child : {W : Type 0} → Child → Progress W → ContainerProgress W
with_child c (returned r q w) = container_returned r q c w
with_child c (goes_on q w) = container_goes_on q c w

module _ {W : Type 0} (owner : Owner W) where
  -- `advanceContainer`, with what the nested `Advance` left
  unfoldable pub after_container :
      Sequence → NamedTask → List ℕ → FrameResult → Frame → W → ContainerProgress W
  unfolding apply_completed_step
  after_container q step input (failed_with f) c w =
      container_returned (failed_with (passed_on f)) (store_failure q (passed_on f)) (child c) w
  after_container q step input suspended c w = container_returned suspended q (child c) w
  after_container q step input (ended_with v) c w = container_returned (ended_with v) q (child c) w
  after_container q step input (completed_with v) c w =
      with_child no_child (apply_completed_step owner.context q w step input v (step_then step))
