-- ===== src/Tests/Workflow.antt =====
-- The theorems on the workflow's frames at a concrete document.
use strij.Base.{
  ◌+◌, ◌≤◌, true, Option, if◌then◌else◌, str_eq, ℕ, ◌≡◌, refl, false, List, [], ◌∷◌, none, some,
  String,
}
use strij.Workflow.{
  suspended, Tasks, named_tasks, NamedTask, value, failure, flow_jump, set_body, do_body, no_tasks,
  task_and, resolve_flow_directive, no_such_task, ambiguous_task,
}
use strij.Workflow.Sequence.{Sequence, FrameContext, not_started}
use strij.Workflow.Frames.{Frame, no_child, sequence_frame, Owner, Advanced, new_sequence}
use strij.Workflow.Forks.{advance}
use strij.Workflow.Flow.{named, IsNamedAt, resolve_flow_directive-Jumps}
use strij.Workflow.Returns.{advance-Returns}
use strij.Workflow.Passes.{IsWithin}
use strij.Workflow.Depth.{TasksIn, named_tasks-AllMake}

abbrev set_task : String → NamedTask
set_task name = record { name = name; then_directive = none; rest = 0; body = set_body }

abbrev scope : List NamedTask
scope = set_task "first" ∷ set_task "second" ∷ set_task "first" ∷ []

resolve_flow_directive-Jumps_example :
    (named "second" scope ≡ 1
      → (i : ℕ) × (IsNamedAt "second" scope i)
        × (resolve_flow_directive scope "second" ≡ value (flow_jump i)))
    × (named "second" scope ≡ 0
        → resolve_flow_directive scope "second" ≡ failure (no_such_task "second"))
    × (2 ≤ named "second" scope
        → resolve_flow_directive scope "second" ≡ failure (ambiguous_task "second"))
resolve_flow_directive-Jumps_example = resolve_flow_directive-Jumps scope "second" refl

-- The context is a list of bytes; the condition of the task "outer" asks that it is empty.
abbrev context : FrameContext (List ℕ)
context = record {
  evaluate_condition = λ step v scope w.
      if str_eq step.name "outer"
      then elim w [ [] ↦ value true | _ ∷ _ ↦ value false ]
      else value true;
  transform_task_input = λ step v scope w. value v;
  transform_task_output = λ step input v scope w. value v;
  export_task_result = λ step input v scope w. value v;
  evaluate_set = λ step v scope w. value (7 ∷ []);
  select_switch_directive = λ step v scope w. value none;
  execute_call = λ step v scope w. (not_started "no calls", w);
  execute_run = λ step v scope w. (not_started "no runs", w);
  forget_child = λ id w. w;
}

abbrev owner : Owner (List ℕ)
owner = record {
  context = context;
  evaluate_for_in = λ task v scope w. value v;
  evaluate_for_while = λ task v variables scope w. value true;
  loop_names = λ task. ("item", "index");
  is_json = λ v. true;
  elements = λ v. some [];
}

abbrev container : NamedTask
container = record {
  name = "outer";
  then_directive = none;
  rest = 0;
  body = do_body (task_and "inner" none 0 set_body no_tasks);
}

abbrev follower : NamedTask
follower = record container { name = "follower" }

abbrev outer : Sequence
outer = new_sequence 100000 (container ∷ follower ∷ []) [] []

abbrev inner : Frame
inner = sequence_frame (new_sequence 100000 (set_task "inner" ∷ []) [] []) no_child

-- Every frame waits.
abbrev waiting : Frame → List ℕ → Option (Advanced (List ℕ))
waiting f w = some (record { outcome = suspended; frame = f; owner = w })

abbrev behind : Sequence
behind = record outer { cursor = 0 + 1; transitions = 0 + 1 }

abbrev document : Tasks
document = task_and "outer" none 0 (do_body (task_and "inner" none 0 set_body no_tasks)) no_tasks

abbrev start : Frame
start = sequence_frame (new_sequence 100000 (named_tasks document) [] []) no_child

advance-Returns_example :
    (a : Advanced (List ℕ)) × (advance owner 2 start [] ≡ some a) × IsWithin 2 a.frame
unfolding TasksIn
advance-Returns_example =
    advance-Returns owner 2 start [] (named_tasks-AllMake 1 document ((tt, tt), tt), tt)
