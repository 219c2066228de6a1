-- ===== src/Workflow/Iterations.antt =====
-- The loop of `ForFrame::Advance` ends within its budget, if what its body does ends.
use strij.Base.{
  ℕ, zero, suc, ◌+◌, ◌≡◌, ◌≤◌, refl, subst, true, false, List, Option, some, arith, ltb, get_elem?,
  Bool-cases, Option-cases, inl, inr,
}
use strij.Workflow.{
  NamedTask, StatusOr, value, failure, FrameResult, suspended, completed_with, ended_with,
  failed_with, LoopVariables, abandoned,
}
use strij.Workflow.Frames.{
  Frame, Child, no_child, child, sequence_frame, for_frame, Owner, Advanced, Loop, new_sequence,
  default_budget,
}
use strij.Workflow.Composites.{
  LoopProgress, loop_returned, loop_goes_on, start_collection, begin_next, after_body, keeps_going,
  run_loop, resume_for, advance_for, ended,
}
use strij.Workflow.Steps.{StatusOr-cases}
use strij.Workflow.Rounds.{Gives, Gives-result, ChildIs}

-- Every body that the loop may begin satisfies `P`.
abbrev pub Begins : (Frame → Type 0) → List NamedTask → Type 0
Begins P body =
    (scope : List LoopVariables) (v : List ℕ)
    → P (sequence_frame (new_sequence default_budget body scope v) no_child)

-- A loop whose bodies satisfy `P`.
abbrev pub LoopIs : (Frame → Type 0) → Frame → Type 0
LoopIs P (for_frame l c) = Begins P l.body × ChildIs P c
LoopIs P f = ⊥

module _ {W : Type 0} (P : Frame → Type 0) where
  abbrev pub Leaves : Advanced W → Type 0
  Leaves a = LoopIs P a.frame

  module _ (owner : Owner W) (nested : Frame → W → Option (Advanced W))
      (nested-returns : (f : Frame) (w : W) → P f → Gives (λ a. P a.frame) (nested f w)) where
    -- A round that begins an iteration counts it, within the budget.
    abbrev Begun : Loop → LoopProgress W → Type 0
    Begun l (loop_returned a) = Leaves a
    Begun l (loop_goes_on l' no_child w) = ⊥
    Begun l (loop_goes_on l' (child f) w) =
        P f
        × Begins P l'.body
        × (l'.iterations ≡ l.iterations + 1)
        × (l'.iteration_budget ≡ l.iteration_budget)
        × (l.iterations + 1 ≤ l.iteration_budget)

    begin_next-Begun : (l : Loop) (w : W) → Begins P l.body → Begun l (begin_next owner l w)
    unfolding begin_next
    begin_next-Begun l w begins = elim (Option-cases (get_elem? l.items l.next_index)) [
      | inl e ↦ rw (begin_next, e) (begins, tt)
      | inr (item, e) ↦ elim (Bool-cases (ltb l.iteration_budget (l.iterations + 1))) [
        | inl over ↦ rw (begin_next, e, over) (begins, tt)
        | inr within ↦
            rw (begin_next, e, within) (begins _ _, begins, refl, refl, ground (arith, within))
      ]
    ]

    -- A round that ends an iteration counts nothing.
    abbrev Ended : Loop → LoopProgress W → Type 0
    Ended l (loop_returned a) = Leaves a
    Ended l (loop_goes_on l' (child f) w) = ⊥
    Ended l (loop_goes_on l' no_child w) =
        Begins P l'.body
        × (l'.iterations ≡ l.iterations)
        × (l'.iteration_budget ≡ l.iteration_budget)

    after_body-Ended :
        (l : Loop) (r : FrameResult) (f : Frame) (w : W)
        → Begins P l.body
        → P f
        → Ended l (after_body owner l r f w)
    unfolding after_body
    after_body-Ended l suspended f w begins is = (begins, is)
    after_body-Ended l (failed_with e) f w begins is = (begins, is)
    after_body-Ended l (ended_with v) f w begins is = (begins, tt)
    after_body-Ended l (completed_with v) f w begins is =
        elim (StatusOr-cases (keeps_going owner (record l { accumulator = v }) w)) [
          | inl (message, e) ↦ rw (after_body, e) (begins, tt)
          | inr (false, e) ↦ rw (after_body, e) (begins, tt)
          | inr (true, e) ↦ rw (after_body, e) (begins, refl, refl)
        ]

    abbrev rounds : Child → ℕ
    rounds no_child = 1
    rounds (child f) = 2

    -- The loop with this fuel returns.
    abbrev LoopReturns : ℕ → Type 0
    LoopReturns fuel =
        (l : Loop) (c : Child) (w : W)
        → Begins P l.body
        → ChildIs P c
        → l.iterations ≤ l.iteration_budget
        → l.iteration_budget + l.iteration_budget + rounds c ≤ fuel + (l.iterations + l.iterations)
        → Gives Leaves (run_loop owner nested fuel l c w)

    -- What the loop does after a round.
    abbrev next : ℕ → LoopProgress W → Option (Advanced W)
    next fuel (loop_returned a) = some a
    next fuel (loop_goes_on l c w) = run_loop owner nested fuel l c w

    after_begin-Returns :
        (fuel : ℕ) (l : Loop) (p : LoopProgress W)
        → LoopReturns fuel
        → l.iteration_budget + l.iteration_budget + 1 ≤ suc fuel + (l.iterations + l.iterations)
        → Begun l p
        → Gives Leaves (next fuel p)
    after_begin-Returns fuel l (loop_returned a) loop enough b = b
    after_begin-Returns fuel l (loop_goes_on l' no_child w) loop enough b = elim b [ ]
    after_begin-Returns fuel l (loop_goes_on l' (child f) w) loop enough
          (is, begins, n, same, within) =
        loop l' (child f) w begins is (omega (arith, n, same, within))
          (omega (arith, n, same, enough))

    after_end-Returns :
        (fuel : ℕ) (l : Loop) (p : LoopProgress W)
        → LoopReturns fuel
        → l.iterations ≤ l.iteration_budget
        → l.iteration_budget + l.iteration_budget + 2 ≤ suc fuel + (l.iterations + l.iterations)
        → Ended l p
        → Gives Leaves (next fuel p)
    after_end-Returns fuel l (loop_returned a) loop within enough b = b
    after_end-Returns fuel l (loop_goes_on l' (child f) w) loop within enough b = elim b [ ]
    after_end-Returns fuel l (loop_goes_on l' no_child w) loop within enough (begins, n, same) =
        loop l' no_child w begins tt (omega (arith, n, same, within))
          (omega (arith, n, same, enough))

    run_loop-Returns : (fuel : ℕ) → LoopReturns fuel
    unfolding run_loop
    run_loop-Returns zero l no_child w begins is within enough = ground (arith, within, enough)
    run_loop-Returns zero l (child f) w begins is within enough = ground (arith, within, enough)
    run_loop-Returns (suc fuel) l no_child w begins is within enough =
        after_begin-Returns fuel l (begin_next owner l w) (run_loop-Returns fuel) enough
          (begin_next-Begun l w begins)
    run_loop-Returns (suc fuel) l (child f) w begins is within enough =
        let (a, e, good) = Gives-result _ (nested f w) (nested-returns f w is) in
        rw (run_loop, e)
          (after_end-Returns fuel l (after_body owner l a.outcome a.frame a.owner)
            (run_loop-Returns fuel) within enough
            (after_body-Ended l a.outcome a.frame a.owner begins good))

    loop_fuel-Returns :
        (l : Loop) (c : Child) (w : W)
        → Begins P l.body
        → ChildIs P c
        → l.iterations ≡ 0
        → Gives Leaves (run_loop owner nested (l.iteration_budget + l.iteration_budget + 3) l c w)
    loop_fuel-Returns l no_child w begins is e =
        run_loop-Returns _ l no_child w begins is (omega (arith, e)) (omega (arith, e))
    loop_fuel-Returns l (child f) w begins is e =
        run_loop-Returns _ l (child f) w begins is (omega (arith, e)) (omega (arith, e))

    -- A loop that has its collection is otherwise as it was.
    abbrev Collected : Loop → StatusOr Loop → Type 0
    Collected l (failure message) = Unit {0}
    Collected l (value l') = Begins P l'.body × (l'.iterations ≡ l.iterations)

    start_collection-Collected :
        (l : Loop) (w : W) → Begins P l.body → Collected l (start_collection owner l w)
    unfolding start_collection
    start_collection-Collected l w begins =
        elim (StatusOr-cases (owner.evaluate_for_in l.task l.accumulator l.scope w)) [
          | inl (message, e) ↦ rw (start_collection, e) tt
          | inr (v, e) ↦ elim (Bool-cases (owner.is_json v)) [
            | inr f ↦ rw (start_collection, e, f) tt
            | inl f ↦ elim (Option-cases (owner.elements v)) [
              | inl g ↦ rw (start_collection, e, f, g) tt
              | inr (items, g) ↦ rw (start_collection, e, f, g) (begins, refl)
            ]
          ]
        ]

    resume_for-Returns :
        (l : Loop) (c : Child) (w : W)
        → Begins P l.body
        → ChildIs P c
        → Gives Leaves (resume_for owner nested l c w)
    unfolding resume_for
    resume_for-Returns l c w begins is = elim (Option-cases l.stored_failure) [
      | inr (f, e) ↦ rw (resume_for, e) (begins, is)
      | inl e ↦
          let fresh = record l { iterations = 0 } in
          elim (Bool-cases l.started) [
            | inl started ↦
                rw (resume_for, e, started)
                  (loop_fuel-Returns (record l { iterations = 0; started = true }) c w begins is
                    refl)
            | inr new ↦ elim (StatusOr-cases (start_collection owner fresh w)) [
              | inl (message, f) ↦ rw (resume_for, e, new, f) (begins, is)
              | inr (l', f) ↦
                  let kept : Collected fresh (value l') =
                    subst (Collected fresh) f (start_collection-Collected fresh w begins) in
                  rw (resume_for, e, new, f) (loop_fuel-Returns l' c w kept.0 is kept.1)
            ]
          ]
    ]

    pub advance_for-Returns :
        (l : Loop) (c : Child) (w : W)
        → LoopIs P (for_frame l c)
        → Gives Leaves (advance_for owner nested l c w)
    unfolding advance_for
    advance_for-Returns l c w (begins, is) =
        let resumed = resume_for-Returns l c w begins is in
        elim l.lifecycle
          as (λ s. Gives Leaves (elim s [
            | abandoned ↦ some (ended owner l c w suspended)
            | _ ↦ resume_for owner nested l c w
          ])) [ abandoned ↦ (begins, is) | _ ↦ resumed ]
