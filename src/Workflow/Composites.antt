-- ===== src/Workflow/Composites.antt =====
-- `ForFrame` and `ForkFrame` of frame.cc, and `Advance` of every frame.
use strij.Base.{
  ℕ, zero, suc, ◌+◌, String, Bool, true, false, not, List, ◌∷◌, Option, none, some, ltb, get_elem?,
  if◌then◌else◌, str_append,
}
use strij.Task.{internal}
use strij.Workflow.{
  NamedTask, LoopVariables, ExecutionFailure, FrameResult, StatusOr, value, failure, suspended,
  completed_with, ended_with, failed_with, completed, failed, abandoned,
}
use strij.Workflow.Frames.{
  Frame, Child, no_child, child, sequence_frame, for_frame, Loop, Owner, Advanced, new_sequence,
  default_budget, passed_on,
}

-- The failure that `ForFrame::fail` stores.
abbrev pub loop_failure : NamedTask → String → ExecutionFailure
loop_failure task message = record {
  status = internal;
  is_own = false;
  step = task.name;
  message = message;
  composed = false;
}

abbrev pub store_loop_failure : Loop → ExecutionFailure → Loop
store_loop_failure l f = record l { stored_failure = some f; lifecycle = failed }

abbrev pub no_array : String
no_array = "the for.in collection is not an array or null"

-- A round of a loop ends the `Advance`, or the loop goes on.
pub data LoopProgress (W : Type 0) : Type 0 where
  loop_returned : Advanced W → LoopProgress W
  loop_goes_on : Loop → Child → W → LoopProgress W

module _ {W : Type 0} (owner : Owner W) where
  -- `startCollection`: the loop, or the failure of its collection.
  unfoldable pub start_collection : Loop → W → StatusOr Loop
  start_collection l w = elim (owner.evaluate_for_in l.task l.accumulator l.scope w) [
    | failure message ↦ failure message
    | value collection ↦
        if not (owner.is_json collection)
        then failure "the for.in collection is not a JSON value"
        else (elim (owner.elements collection) [
          | none ↦ failure no_array
          | some items ↦ value (record l { items = items; started = true })
        ])
  ]

  -- `beginIteration`, with the element at `next_index`
  abbrev pub iteration_of : Loop → List ℕ → LoopVariables
  iteration_of l item = record {
    each_name = (owner.loop_names l.task).0;
    item = item;
    at_name = (owner.loop_names l.task).1;
    index = l.next_index;
  }

  abbrev pub body_of : Loop → List ℕ → Frame
  body_of l item =
      sequence_frame
        (new_sequence default_budget l.body (iteration_of l item ∷ l.scope) l.accumulator) no_child

  abbrev pub begin_iteration : Loop → List ℕ → Loop
  begin_iteration l item = record l {
    iteration_scope = some (iteration_of l item);
    next_index = l.next_index + 1;
  }

  abbrev pub ended : Loop → Child → W → FrameResult → Advanced W
  ended l c w r = record { outcome = r; frame = for_frame l c; owner = w }

  -- `fail`
  abbrev pub fails : Loop → Child → W → String → Advanced W
  fails l c w message =
      let f = loop_failure l.task message in ended (store_loop_failure l f) c w (failed_with f)

  -- `while`, after an iteration; a loop without it goes on.
  abbrev pub keeps_going : Loop → W → StatusOr Bool
  keeps_going l w = if not l.has_while then value true else (elim l.iteration_scope [
    | none ↦ value true
    | some variables ↦ owner.evaluate_for_while l.task l.accumulator variables l.scope w
  ])

  abbrev pub over_iterations : NamedTask → String
  over_iterations task =
      str_append "the for task exceeded its synchronous iteration budget at '"
        (str_append task.name "'")

  -- The start of the next iteration, or the end of the loop.
  unfoldable pub begin_next : Loop → W → LoopProgress W
  begin_next l w = elim (get_elem? l.items l.next_index) [
    | none ↦
        loop_returned
          (ended (record l { lifecycle = completed }) no_child w (completed_with l.accumulator))
    | some item ↦
        let counted = record l { iterations = l.iterations + 1 } in
        if ltb l.iteration_budget counted.iterations
        then loop_returned (fails counted no_child w (over_iterations l.task))
        else loop_goes_on (begin_iteration counted item) (child (body_of counted item)) w
  ]

  -- What the loop does with what the `Advance` of its body left.
  unfoldable pub after_body : Loop → FrameResult → Frame → W → LoopProgress W
  after_body l suspended f w = loop_returned (ended l (child f) w suspended)
  after_body l (failed_with e) f w =
      loop_returned
        (ended (store_loop_failure l (passed_on e)) (child f) w (failed_with (passed_on e)))
  after_body l (ended_with v) f w =
      loop_returned (
        ended (record l { lifecycle = completed; iteration_scope = none }) no_child w
          (ended_with v))
  after_body l (completed_with v) f w =
      let l' = record l { accumulator = v } in
      elim (keeps_going l' w) [
        | failure message ↦ loop_returned (fails l' no_child w message)
        | value false ↦ loop_returned (
            ended (record l' { lifecycle = completed; iteration_scope = none }) no_child w
              (completed_with v))
        | value true ↦ loop_goes_on (record l' { iteration_scope = none }) no_child w
      ]

  module _ (nested : Frame → W → Option (Advanced W)) where
    -- The loop of `ForFrame::Advance`; each round advances a body or begins an iteration.
    unfoldable pub run_loop : ℕ → Loop → Child → W → Option (Advanced W)
    unfolding begin_next after_body
    run_loop zero l c w = none
    run_loop (suc fuel) l no_child w = elim (begin_next l w) [
      | loop_returned r ↦ some r
      | loop_goes_on l' c w' ↦ run_loop fuel l' c w'
    ]
    run_loop (suc fuel) l (child f) w = elim (nested f w) [
      | none ↦ none
      | some a ↦ elim (after_body l a.outcome a.frame a.owner) [
        | loop_returned r ↦ some r
        | loop_goes_on l' c w' ↦ run_loop fuel l' c w'
      ]
    ]

    abbrev pub loop_fuel : Loop → ℕ
    loop_fuel l = l.iteration_budget + l.iteration_budget + 3

    -- The rest of `ForFrame::Advance` for a loop that is not abandoned.
    unfoldable pub resume_for : Loop → Child → W → Option (Advanced W)
    unfolding run_loop start_collection
    resume_for l c w = elim l.stored_failure [
      | some f ↦ some (ended (record l { lifecycle = failed }) c w (failed_with f))
      | none ↦
          let fresh = record l { iterations = 0 } in
          if fresh.started
          then run_loop (loop_fuel l) fresh c w
          else (elim (start_collection fresh w) [
            | failure message ↦ some (fails fresh c w message)
            | value l' ↦ run_loop (loop_fuel l') l' c w
          ])
    ]

    -- `ForFrame::Advance`
    unfoldable pub advance_for : Loop → Child → W → Option (Advanced W)
    unfolding resume_for
    advance_for l c w = elim l.lifecycle [
      | abandoned ↦ some (ended l c w suspended)
      | _ ↦ resume_for l c w
    ]
