-- ===== src/Workflow/Returns.antt =====
-- `Advance` returns, with fuel for the depth of the frame.
use strij.Base.{ℕ, zero, suc, ◌≡◌, Option, none, some}
use strij.Workflow.Frames.{Frame, sequence_frame, for_frame, fork_frame, Owner, Advanced}
use strij.Workflow.Forks.{advance}
use strij.Workflow.Passes.{IsWithin, advance_fork-Returns}
use strij.Workflow.Rounds.{Gives, Gives-result, SequenceIs, advance_sequence-Returns}
use strij.Workflow.Iterations.{LoopIs, advance_for-Returns}

module _ {W : Type 0} (owner : Owner W) where
  -- The result is a frame within the same depth.
  SequenceIs-IsWithin : (n : ℕ) (f : Frame) → SequenceIs (IsWithin n) f → IsWithin (suc n) f
  SequenceIs-IsWithin n (sequence_frame q c) is = is
  SequenceIs-IsWithin n (for_frame _ _) is = elim is [ ]
  SequenceIs-IsWithin n (fork_frame _ _) is = elim is [ ]

  LoopIs-IsWithin : (n : ℕ) (f : Frame) → LoopIs (IsWithin n) f → IsWithin (suc n) f
  LoopIs-IsWithin n (for_frame l c) is = is
  LoopIs-IsWithin n (sequence_frame _ _) is = elim is [ ]
  LoopIs-IsWithin n (fork_frame _ _) is = elim is [ ]

  weaken :
      {P Q : Advanced W → Type 0} (o : Option (Advanced W))
      → ((a : Advanced W) → P a → Q a)
      → Gives P o
      → Gives Q o
  weaken none f g = g
  weaken (some a) f g = f a g

  advance-Gives :
      (n : ℕ) (f : Frame) (w : W)
      → IsWithin n f
      → Gives (λ a. IsWithin n a.frame) (advance owner n f w)
  unfolding advance
  advance-Gives zero f w is = is
  advance-Gives (suc n) (sequence_frame q c) w is =
      weaken _ (λ a. SequenceIs-IsWithin n a.frame)
        (advance_sequence-Returns (IsWithin n) owner (advance owner n) (advance-Gives n) q c w is.0
          is.1)
  advance-Gives (suc n) (for_frame l c) w is =
      weaken _ (λ a. LoopIs-IsWithin n a.frame)
        (advance_for-Returns (IsWithin n) owner (advance owner n) (advance-Gives n) l c w is)
  advance-Gives (suc n) (fork_frame k bs) w is =
      advance_fork-Returns owner n (advance owner n) (advance-Gives n) k bs w is

  -- With fuel for the depth of its nesting, `Advance` of a frame returns, and leaves a frame that is
  -- nested no deeper, so that the same fuel is enough for the next `Advance`. The owner's evaluation
  -- of conditions, inputs and calls is arbitrary, and the budgets of the frame may be any.
  pub advance-Returns :
      (n : ℕ) (f : Frame) (w : W)
      → IsWithin n f
      → (a : Advanced W) × (advance owner n f w ≡ some a) × IsWithin n a.frame
  advance-Returns n f w is = Gives-result _ (advance owner n f w) (advance-Gives n f w is)
