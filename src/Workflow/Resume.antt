-- ===== src/Workflow/Resume.antt =====
-- A sequence that is resumed while its step runs a container reads the step's condition again.
use strij.Base.{◌+◌, ◌≡◌, ◌≤◌, false, Option, none, some, get_elem?}
use strij.Workflow.{NamedTask, value, active}
use strij.Workflow.Sequence.{Sequence}
use strij.Workflow.Frames.{Frame, Owner, Advanced}

module _ {W : Type 0} (owner : Owner W) (nested : Frame → W → Option (Advanced W)) (q : Sequence)
    (running : Frame) (w : W) (step : NamedTask) (is_active : q.lifecycle ≡ active)
    (no_result : q.pending_result ≡ none) (no_wait : q.waiting_child_id ≡ none)
    (no_failure : q.stored_failure ≡ none) (budget : 1 ≤ q.transition_budget)
    (at_step : get_elem? q.steps q.cursor ≡ some step)
    (now_false : owner.context.evaluate_condition step q.data_value q.scope w ≡ value false) where
  -- The sequence behind the step that is skipped.
  abbrev pub moved : Sequence
  moved = record q { cursor = q.cursor + 1; transitions = 0 + 1 }
