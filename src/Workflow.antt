-- ===== src/Workflow.antt =====
-- The workflow interpreter's frames: src/openworkflow/task.hh, and frame.hh and frame.cc of
-- src/nodeagent/extensions/task_handlers/openworkflow. A value that flows through a workflow is its
-- bytes. The number `rest` of a task stands for its fields that only the frame's owner reads.
pub mod Sequence
pub mod Steps
pub mod Rounds
pub mod Iterations
pub mod Returns
pub mod Passes
pub mod Depth
pub mod Forks
pub mod Frames
pub mod Resume
pub mod Advance
pub mod Composites
pub mod Flow
use strij.Base.{
  ℕ, zero, suc, ◌+◌, String, Bool, true, false, ◌||◌, List, [], ◌∷◌, Option, none, some, ◌==◌,
  if◌then◌else◌, str_eq, str_append,
}
use strij.Task.{TaskStatus}

mutual
  -- `TaskBody`; `other_body` is any of the kinds that frames do not run.
  pub data TaskBody : Type 0 where
    call_body : TaskBody
    run_body : Option Bool → TaskBody
    do_body : Tasks → TaskBody
    fork_body : Tasks → Bool → TaskBody
    for_body : Bool → Tasks → TaskBody
    set_body : TaskBody
    switch_body : TaskBody
    other_body : TaskBody

  -- `Tasks`: the named tasks of a sequence, each with its name, its `then` and its body.
  pub data Tasks : Type 0 where
    no_tasks : Tasks
    task_and : String → Option String → ℕ → TaskBody → Tasks → Tasks

-- `NamedTask`
pub record NamedTask : Type 0 where
  pub name : String
  pub then_directive : Option String
  pub rest : ℕ
  pub body : TaskBody

abbrev pub named_tasks : Tasks → List NamedTask
named_tasks no_tasks = []
named_tasks (task_and name then_directive rest body tasks) =
    record { name = name; then_directive = then_directive; rest = rest; body = body }
    ∷ named_tasks tasks

-- `FlowDirective`
pub data FlowDirective : Type 0 where
  flow_continue flow_exit flow_end : FlowDirective
  flow_jump : ℕ → FlowDirective

-- A value or an error's message: `absl::StatusOr`.
pub data StatusOr {ℓ} (A : Type ℓ) : Type ℓ where
  value : A → StatusOr A
  failure : String → StatusOr A

abbrev pub no_such_task : String → String
no_such_task directive =
    str_append "flow directive '"
      (str_append directive "' does not name a task in the same sequence")

abbrev pub ambiguous_task : String → String
ambiguous_task directive =
    str_append "flow directive '" (str_append directive "' is ambiguous in its sequence")

-- The loop of `ResolveFlowDirective`, from `index` on with the target so far. Its second error,
-- for a name that is there twice, leaves the loop.
unfoldable pub resolve_target : String → List NamedTask → ℕ → Option ℕ → StatusOr FlowDirective
resolve_target directive [] index none = failure (no_such_task directive)
resolve_target directive [] index (some target) = value (flow_jump target)
resolve_target directive (task ∷ tasks) index none =
    if str_eq task.name directive
    then resolve_target directive tasks (suc index) (some index)
    else resolve_target directive tasks (suc index) none
resolve_target directive (task ∷ tasks) index (some target) =
    if str_eq task.name directive
    then failure (ambiguous_task directive)
    else resolve_target directive tasks (suc index) (some target)

-- `ResolveFlowDirective`
unfoldable pub resolve_flow_directive : List NamedTask → String → StatusOr FlowDirective
unfolding resolve_target
resolve_flow_directive scope directive =
    if str_eq directive "" || str_eq directive "continue"
    then value flow_continue
    else if str_eq directive "exit"
    then value flow_exit
    else if str_eq directive "end"
    then value flow_end
    else resolve_target directive scope 0 none

-- `stepThen`
abbrev pub step_then : NamedTask → String
step_then step = elim step.then_directive [ none ↦ "continue" | some directive ↦ directive ]

-- `Frame::State`
pub data Lifecycle : Type 0 where
  pending active completed failed abandoned : Lifecycle

-- `IsTerminal`
abbrev pub is_terminal : Lifecycle → Bool
is_terminal completed = true
is_terminal failed = true
is_terminal abandoned = true
is_terminal _ = false

-- `ExecutionFailure`. Its `origin_` is only compared with the frame that returned the failure:
-- `is_own` says that they are the same.
pub record ExecutionFailure : Type 0 where
  pub status : TaskStatus
  pub is_own : Bool
  pub step : String
  pub message : String
  pub composed : Bool

-- `FrameResult`
pub data FrameResult : Type 0 where
  suspended : FrameResult
  completed_with ended_with : List ℕ → FrameResult
  failed_with : ExecutionFailure → FrameResult

-- `LexicalScope`, the chain of loop variables, innermost first
pub record LoopVariables : Type 0 where
  pub each_name : String
  pub item : List ℕ
  pub at_name : String
  pub index : ℕ
