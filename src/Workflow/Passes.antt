-- ===== src/Workflow/Passes.antt =====
-- Forks: a pass over the branches ends if their `Advance` does, and what is abandoned stays in its depth.
use strij.Base.{
  ℕ, zero, suc, Bool, true, false, not, [], ◌∷◌, Option, none, some, Bool-cases, inl, inr, ◌⊎◌,
  String, ◌||◌,
}
use strij.Workflow.{
  FrameResult, suspended, completed_with, ended_with, failed_with, completed, failed, abandoned,
  is_terminal,
}
use strij.Workflow.Frames.{
  Frame, Child, no_child, child, sequence_frame, for_frame, fork_frame, Owner, Advanced, Fork,
  Branches, no_branches, branch,
}
use strij.Workflow.Forks.{
  Pass, all_passed, ended_by, behind, abandon, abandon_child, abandon_branches, after_branch,
  in_front, run_branches, fork_over, join, join_from, after_pass, resume_fork, advance_fork,
  all_done,
}
use strij.Workflow.Rounds.{Gives, Gives-result, ChildIs, SequenceIs}
use strij.Workflow.Iterations.{LoopIs}

abbrev pub BranchesAre : (Frame → Type 0) → Branches → Type 0
BranchesAre P no_branches = Unit {0}
BranchesAre P (branch name v f bs) = P f × BranchesAre P bs

-- The nesting of frames and of the containers that their steps may make is at most this deep.
abbrev pub IsWithin : ℕ → Frame → Type 0
IsWithin zero f = ⊥
IsWithin (suc n) (sequence_frame q c) = SequenceIs (IsWithin n) (sequence_frame q c)
IsWithin (suc n) (for_frame l c) = LoopIs (IsWithin n) (for_frame l c)
IsWithin (suc n) (fork_frame k bs) = BranchesAre (IsWithin n) bs

module _ {W : Type 0} (owner : Owner W) where
  mutual
    unfolding abandon

    abandon-IsWithin : (n : ℕ) (f : Frame) (w : W) → IsWithin n f → IsWithin n (abandon owner f w).0
    abandon-IsWithin zero f w is = elim is [ ]
    abandon-IsWithin (suc n) (sequence_frame q c) w is =
        elim (Bool-cases (is_terminal q.lifecycle)) [
          | inl e ↦ rw (abandon, e) is
          | inr e ↦ rw (abandon, e) (is.0, abandon_child-IsWithin n c _ is.1)
        ]
    abandon-IsWithin (suc n) (for_frame l c) w is = elim (Bool-cases (is_terminal l.lifecycle)) [
      | inl e ↦ rw (abandon, e) is
      | inr e ↦ rw (abandon, e) (is.0, abandon_child-IsWithin n c _ is.1)
    ]
    abandon-IsWithin (suc n) (fork_frame k bs) w is = elim (Bool-cases (is_terminal k.lifecycle)) [
      | inl e ↦ rw (abandon, e) is
      | inr e ↦ rw (abandon, e) (abandon_branches-IsWithin n bs w is)
    ]

    abandon_child-IsWithin :
        (n : ℕ) (c : Child) (w : W)
        → ChildIs (IsWithin n) c
        → ChildIs (IsWithin n) (abandon_child owner c w).0
    abandon_child-IsWithin n no_child w is = tt
    abandon_child-IsWithin n (child f) w is = abandon-IsWithin n f w is

    abandon_branches-IsWithin :
        (n : ℕ) (bs : Branches) (w : W)
        → BranchesAre (IsWithin n) bs
        → BranchesAre (IsWithin n) (abandon_branches owner bs w).0
    abandon_branches-IsWithin n no_branches w is = tt
    abandon_branches-IsWithin n (branch name v f bs) w is =
        (abandon-IsWithin n f w is.0, abandon_branches-IsWithin n bs _ is.1)

  abbrev PassIs : (Frame → Type 0) → Pass W → Type 0
  PassIs P (all_passed bs w) = BranchesAre P bs
  PassIs P (ended_by r l bs w) = BranchesAre P bs

  module _ (P : Frame → Type 0) (nested : Frame → W → Option (Advanced W))
      (nested-returns : (f : Frame) (w : W) → P f → Gives (λ a. P a.frame) (nested f w)) where
    -- Where a pass stands after a branch.
    abbrev Goes : Pass W ⊎ Branches → Type 0
    Goes (inl pass) = PassIs P pass
    Goes (inr here) = BranchesAre P here

    after_branch-Goes :
        (compete : Bool) (name : String) (f : Frame) (w : W) (bs : Branches) (r : FrameResult)
        → P f
        → BranchesAre P bs
        → Goes (after_branch owner compete name f w bs r)
    unfolding after_branch
    after_branch-Goes compete name f w bs suspended is are = (is, tt)
    after_branch-Goes compete name f w bs (ended_with v) is are = (is, are)
    after_branch-Goes true name f w bs (completed_with v) is are = (is, are)
    after_branch-Goes false name f w bs (completed_with v) is are = (is, tt)
    after_branch-Goes compete name f w bs (failed_with e) is are = (is, are)

    in_front-BranchesAre :
        (first rest : Branches)
        → BranchesAre P first
        → BranchesAre P rest
        → BranchesAre P (in_front owner first rest)
    in_front-BranchesAre no_branches rest first-are are = are
    in_front-BranchesAre (branch name v f bs) rest (is, first-are) are =
        (is, in_front-BranchesAre bs rest first-are are)

    behind-PassIs :
        (first : Branches → Branches) (pass : Pass W)
        → ((bs : Branches) → BranchesAre P bs → BranchesAre P (first bs))
        → PassIs P pass
        → PassIs P (behind first pass)
    behind-PassIs first (all_passed bs w) keeps are = keeps bs are
    behind-PassIs first (ended_by r l bs w) keeps are = keeps bs are

    -- What the pass does after a branch.
    abbrev next : Bool → Branches → W → Pass W ⊎ Branches → Option (Pass W)
    next compete bs w (inl over) = some over
    next compete bs w (inr here) = elim (run_branches owner nested compete bs w) [
      | none ↦ none
      | some pass ↦ some (behind (in_front owner here) pass)
    ]

    next-Gives :
        (compete : Bool) (bs : Branches) (w : W) (r : Pass W ⊎ Branches)
        → Gives (PassIs P) (run_branches owner nested compete bs w)
        → Goes r
        → Gives (PassIs P) (next compete bs w r)
    next-Gives compete bs w (inl over) rest goes = goes
    next-Gives compete bs w (inr here) rest goes =
        let (pass, e, good) = Gives-result _ (run_branches owner nested compete bs w) rest in
        rw (next, e)
          (behind-PassIs (in_front owner here) pass
            (λ bs' are. in_front-BranchesAre here bs' goes are) good)

    run_branches-Gives :
        (compete : Bool) (bs : Branches) (w : W)
        → BranchesAre P bs
        → Gives (PassIs P) (run_branches owner nested compete bs w)
    unfolding run_branches
    run_branches-Gives compete no_branches w are = tt
    run_branches-Gives compete (branch name (some v) f bs) w (is, are) =
        let (pass, e, good) =
          Gives-result _ (run_branches owner nested compete bs w)
            (run_branches-Gives compete bs w are) in
        rw (run_branches, e) (behind-PassIs _ pass (λ rest rest-are. (is, rest-are)) good)
    run_branches-Gives compete (branch name none f bs) w (is, are) =
        let (a, e, good) = Gives-result _ (nested f w) (nested-returns f w is) in
        rw (run_branches, e)
          (next-Gives compete bs a.owner
            (after_branch owner compete name a.frame a.owner bs a.outcome)
            (run_branches-Gives compete bs a.owner are)
            (after_branch-Goes compete name a.frame a.owner bs a.outcome good are))

  -- A fork is left within its depth.
  abbrev pub ForkLeaves : ℕ → Advanced W → Type 0
  ForkLeaves n a = IsWithin (suc n) a.frame

  join-IsWithin :
      (n : ℕ) (nested : Frame → W → Option (Advanced W)) (k : Fork) (bs : Branches) (w : W)
      → BranchesAre (IsWithin n) bs
      → ForkLeaves n (join owner nested k bs w)
  unfolding join
  join-IsWithin n nested k bs w are =
      elim (join_from owner.is_json true bs (91 ∷ []))
        as (λ r. ForkLeaves n (elim r [
          | inl array ↦ record {
            outcome = completed_with array;
            frame = fork_frame (record k { lifecycle = completed }) bs;
            owner = w;
          }
          | inr e ↦ fork_over owner nested k failed (failed_with e) bs w
        ])) [ inl array ↦ are | inr e ↦ abandon_branches-IsWithin n bs w are ]

  after_pass-IsWithin :
      (n : ℕ) (nested : Frame → W → Option (Advanced W)) (k : Fork) (pass : Pass W)
      → PassIs (IsWithin n) pass
      → ForkLeaves n (after_pass owner nested k pass)
  after_pass-IsWithin n nested k (ended_by r l bs w) are = abandon_branches-IsWithin n bs w are
  after_pass-IsWithin n nested k (all_passed bs w) are =
      elim (Bool-cases (k.compete || not (all_done bs))) [
        | inl waits ↦ rw waits are
        | inr over ↦ rw over (join-IsWithin n nested k bs w are)
      ]

  module _ (n : ℕ) (nested : Frame → W → Option (Advanced W))
      (nested-returns : (f : Frame) (w : W)
        → IsWithin n f
        → Gives (λ a. IsWithin n a.frame) (nested f w)) where
    resume_fork-Returns :
        (k : Fork) (bs : Branches) (w : W)
        → BranchesAre (IsWithin n) bs
        → Gives (ForkLeaves n) (resume_fork owner nested k bs w)
    unfolding resume_fork
    resume_fork-Returns k no_branches w are = tt
    resume_fork-Returns k (branch name v f rest) w are =
        let bs = branch name v f rest in
        let (pass, e, good) =
          Gives-result _ (run_branches owner nested k.compete bs w)
            (run_branches-Gives (IsWithin n) nested nested-returns k.compete bs w are) in
        rw (resume_fork, e) (after_pass-IsWithin n nested k pass good)

    pub advance_fork-Returns :
        (k : Fork) (bs : Branches) (w : W)
        → BranchesAre (IsWithin n) bs
        → Gives (ForkLeaves n) (advance_fork owner nested k bs w)
    unfolding advance_fork
    advance_fork-Returns k bs w are =
        let resumed = resume_fork-Returns k bs w are in
        elim k.lifecycle
          as (λ s. Gives (ForkLeaves n) (elim s [
            | abandoned ↦ some (record { outcome = suspended; frame = fork_frame k bs; owner = w })
            | _ ↦ resume_fork owner nested k bs w
          ])) [ abandoned ↦ are | _ ↦ resumed ]
