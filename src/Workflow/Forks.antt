-- ===== src/Workflow/Forks.antt =====
-- `ForkFrame` and `Abandon` of frame.cc, and `Advance` of every frame.
use strij.Base.{
  ℕ, zero, suc, String, Bool, true, false, not, List, [], ◌∷◌, ◌++◌, Option, none, some,
  if◌then◌else◌, str_append, str_eq, ◌||◌, ◌&&◌, ◌⊎◌, inl, inr,
}
use strij.Task.{internal}
use strij.Workflow.{
  ExecutionFailure, FrameResult, Lifecycle, suspended, completed_with, ended_with, failed_with,
  completed, failed, abandoned, is_terminal,
}
use strij.Workflow.Frames.{
  Frame, Child, no_child, child, sequence_frame, for_frame, fork_frame, Fork, Branches, no_branches,
  branch, Owner, Advanced,
}
use strij.Workflow.Advance.{advance_sequence}
use strij.Workflow.Composites.{advance_for}

abbrev pub branch_label : String → String
branch_label name = str_append "branch '" (str_append name "': ")

-- `composeFailure`
abbrev pub compose_failure : String → ExecutionFailure → ExecutionFailure
compose_failure name f = record f {
  message =
      str_append
        (if not f.is_own && not (str_eq f.step "")
          then str_append (branch_label name) (str_append "step '" (str_append f.step "': "))
          else branch_label name)
        f.message;
  step = "";
  composed = true;
}

abbrev pub named_failure : String → ExecutionFailure → ExecutionFailure
named_failure name f = if f.composed then f else compose_failure name f

-- The end of a pass over the branches: none of them ended it, or one did.
pub data Pass (W : Type 0) : Type 0 where
  all_passed : Branches → W → Pass W
  ended_by : FrameResult → Lifecycle → Branches → W → Pass W

abbrev pub behind : {W : Type 0} → (Branches → Branches) → Pass W → Pass W
behind first (all_passed bs w) = all_passed (first bs) w
behind first (ended_by r l bs w) = ended_by r l (first bs) w

-- Whether every branch has a result.
abbrev pub all_done : Branches → Bool
all_done no_branches = true
all_done (branch name none f bs) = false
all_done (branch name (some v) f bs) = all_done bs

-- The bytes of a branch's result, behind a comma if it is not the first.
abbrev pub element : Bool → List ℕ → List ℕ
element true v = v
element false v = 44 ∷ v

-- `joinAllForkResult`, from a branch on
unfoldable pub join_from : (List ℕ → Bool) → Bool → Branches → List ℕ → List ℕ ⊎ ExecutionFailure
join_from is_json first no_branches array = inl (array ++ 93 ∷ [])
join_from is_json first (branch name none f bs) array = join_from is_json false bs array
join_from is_json first (branch name (some v) f bs) array =
    let rest = join_from is_json false bs (array ++ element first v) in
    if not (is_json v)
    then inr (record {
      status = internal;
      is_own = false;
      step = "";
      message = str_append (branch_label name) "the branch result is not a JSON value";
      composed = true;
    })
    else rest

module _ {W : Type 0} (owner : Owner W) where
  unfoldable mutual
    -- `Abandon`
    pub abandon : Frame → W → Frame × W
    abandon (sequence_frame q c) w =
        let forgotten : W = elim q.waiting_child_id [
          | none ↦ w
          | some id ↦ owner.context.forget_child id w
        ] in
        let (c', w') = abandon_child c forgotten in
        if is_terminal q.lifecycle
        then (sequence_frame q c, w)
        else (sequence_frame (record q { lifecycle = abandoned; waiting_child_id = none }) c', w')
    abandon (for_frame l c) w =
        let (c', w') = abandon_child c w in
        if is_terminal l.lifecycle
        then (for_frame l c, w)
        else (for_frame (record l { lifecycle = abandoned }) c', w')
    abandon (fork_frame k bs) w =
        let (bs', w') = abandon_branches bs w in
        if is_terminal k.lifecycle
        then (fork_frame k bs, w)
        else (fork_frame (record k { lifecycle = abandoned }) bs', w')

    pub abandon_child : Child → W → Child × W
    abandon_child no_child w = (no_child, w)
    abandon_child (child f) w = let (f', w') = abandon f w in (child f', w')

    -- `abandonBranches`
    pub abandon_branches : Branches → W → Branches × W
    abandon_branches no_branches w = (no_branches, w)
    abandon_branches (branch name v f bs) w =
        let (f', w') = abandon f w in
        let (bs', w'') = abandon_branches bs w' in (branch name v f' bs', w'')

  -- What the `Advance` of a branch does to the pass.
  unfoldable pub after_branch :
      Bool → String → Frame → W → Branches → FrameResult → Pass W ⊎ Branches
  after_branch compete name f w bs suspended = inr (branch name none f no_branches)
  after_branch compete name f w bs (ended_with v) =
      inl (ended_by (ended_with v) completed (branch name none f bs) w)
  after_branch compete name f w bs (completed_with v) =
      if compete
      then inl (ended_by (completed_with v) completed (branch name none f bs) w)
      else inr (branch name (some v) f no_branches)
  after_branch compete name f w bs (failed_with e) =
      inl (ended_by (failed_with (named_failure name e)) failed (branch name none f bs) w)

  abbrev pub in_front : Branches → Branches → Branches
  in_front no_branches bs = bs
  in_front (branch name v f rest) bs = branch name v f (in_front rest bs)

  module _ (nested : Frame → W → Option (Advanced W)) where
    -- The loop of `ForkFrame::Advance`.
    unfoldable pub run_branches : Bool → Branches → W → Option (Pass W)
    unfolding after_branch
    run_branches compete no_branches w = some (all_passed no_branches w)
    run_branches compete (branch name (some v) f bs) w = elim (run_branches compete bs w) [
      | none ↦ none
      | some pass ↦ some (behind (branch name (some v) f) pass)
    ]
    run_branches compete (branch name none f bs) w = elim (nested f w) [
      | none ↦ none
      | some a ↦ elim (after_branch compete name a.frame a.owner bs a.outcome) [
        | inl over ↦ some over
        | inr here ↦ elim (run_branches compete bs a.owner) [
          | none ↦ none
          | some pass ↦ some (behind (in_front here) pass)
        ]
      ]
    ]

    -- A fork that is over: its branches are abandoned.
    abbrev pub fork_over : Fork → Lifecycle → FrameResult → Branches → W → Advanced W
    fork_over k l r bs w =
        let (bs', w') = abandon_branches bs w in
        record { outcome = r; frame = fork_frame (record k { lifecycle = l }) bs'; owner = w' }

    -- The end of `ForkFrame::Advance`: the branches that are done are joined.
    unfoldable pub join : Fork → Branches → W → Advanced W
    unfolding join_from
    join k bs w = elim (join_from owner.is_json true bs (91 ∷ [])) [
      | inl array ↦ record {
        outcome = completed_with array;
        frame = fork_frame (record k { lifecycle = completed }) bs;
        owner = w;
      }
      | inr e ↦ fork_over k failed (failed_with e) bs w
    ]

    abbrev pub after_pass : Fork → Pass W → Advanced W
    after_pass k (ended_by r l bs w) = fork_over k l r bs w
    after_pass k (all_passed bs w) =
        if k.compete || not (all_done bs)
        then record { outcome = suspended; frame = fork_frame k bs; owner = w }
        else join k bs w

    -- The rest of `ForkFrame::Advance` for a fork that is not abandoned.
    unfoldable pub resume_fork : Fork → Branches → W → Option (Advanced W)
    unfolding run_branches join
    resume_fork k no_branches w = some (record {
      outcome = completed_with (91 ∷ 93 ∷ []);
      frame = fork_frame (record k { lifecycle = completed }) no_branches;
      owner = w;
    })
    resume_fork k (branch name v f rest) w =
        elim (run_branches k.compete (branch name v f rest) w) [
          | none ↦ none
          | some pass ↦ some (after_pass k pass)
        ]

    -- `ForkFrame::Advance`
    unfoldable pub advance_fork : Fork → Branches → W → Option (Advanced W)
    unfolding resume_fork
    advance_fork k bs w = elim k.lifecycle [
      | abandoned ↦ some (record { outcome = suspended; frame = fork_frame k bs; owner = w })
      | _ ↦ resume_fork k bs w
    ]

  -- `Advance` of a frame, with fuel for the depth of its nesting
  unfoldable pub advance : ℕ → Frame → W → Option (Advanced W)
  unfolding advance_sequence advance_for advance_fork
  advance zero f w = none
  advance (suc depth) (sequence_frame q c) w = advance_sequence owner (advance depth) q c w
  advance (suc depth) (for_frame l c) w = advance_for owner (advance depth) l c w
  advance (suc depth) (fork_frame k bs) w = advance_fork (advance depth) k bs w
