-- ===== src/ProbeLocal/Running.antt =====
-- Which handlers of the probe local scheduler leave the running tasks alone.
use strij.Base.{
  ℕ, zero, suc, ◌≡◌, refl, ◌∙◌, false, List, [], ◌∷◌, arith, Bool-cases, Option-cases, inl, inr,
  length, leb,
}
use strij.Task.{Task}
use strij.BoundedQueue.{size, try_pop}
use strij.FetchRouter.{all_cached}
use strij.Admission.{Status}
use strij.Admission.Scope.{AdmissionScope}
use strij.ProbeLocal.{
  Codec, TaskProbe, QueuedProbe, Scheduler, put_pending, walk_admitted, walk_item, walk_loop, walk,
  handle_admitted, handle_probe, start_prefetch,
}
use strij.ProbeLocal.Walk.{walk_loop_capped, walk_loop_empty, walk_loop_round}

-- No scope of a running task was released.
abbrev pub AllLive : List (Task × AdmissionScope) → Type 0
AllLive [] = Unit {0}
AllLive ((task, scope) ∷ tasks) = (scope.released ≡ false) × AllLive tasks

module _ (codec : Codec) where
  walk_admitted-running :
      (s : Scheduler) (deferred : List QueuedProbe) (item : QueuedProbe) (status : Status)
      → (walk_admitted codec s deferred item status).0.running ≡ s.running
  unfolding walk_admitted put_pending
  walk_admitted-running s deferred item status = ground arith

  walk_item-running :
      (s : Scheduler) (deferred : List QueuedProbe) (item : QueuedProbe)
      → (walk_item codec s deferred item).0.running ≡ s.running
  unfolding walk_item
  walk_item-running s deferred item = elim (Bool-cases (all_cached s.router item.probe.deps)) [
    | inl cached ↦ rw cached (walk_admitted-running (record s { admission = _ }) deferred item _)
    | inr missing ↦ rw missing refl
  ]

  walk_loop-running :
      (fuel : ℕ) (s : Scheduler) (deferred : List QueuedProbe)
      → (walk_loop codec fuel s deferred).0.running ≡ s.running
  unfolding walk_loop
  walk_loop-running zero s deferred = refl
  walk_loop-running (suc fuel) s deferred =
      elim (Bool-cases (leb s.max_concurrent_preallocations (length s.pull_pending))) [
        | inl full ↦ rw (walk_loop_capped codec fuel s deferred full) refl
        | inr below ↦ elim (Option-cases (try_pop s.queue)) [
          | inl empty ↦ rw (walk_loop_empty codec fuel s deferred below empty) refl
          | inr ((item, rest), e) ↦
              let r = walk_item codec (record s { queue = rest }) deferred item in
              rw (walk_loop_round codec fuel s deferred item rest below e) (
                walk_loop-running fuel r.0 r.1
                ∙ walk_item-running (record s { queue = rest }) deferred item)
        ]
      ]

  pub walk-running : (s : Scheduler) → (walk codec s).running ≡ s.running
  unfolding walk
  walk-running s = walk_loop-running (size s.queue) s []

  handle_admitted-running :
      (s : Scheduler) (probe : TaskProbe) (mailbox : ℕ) (status : Status)
      → (handle_admitted codec s probe mailbox status).running ≡ s.running
  unfolding handle_admitted put_pending start_prefetch
  handle_admitted-running s probe mailbox status = ground arith

  pub handle_probe-running :
      (s : Scheduler) (probe : TaskProbe) (mailbox : ℕ)
      → (handle_probe codec s probe mailbox).running ≡ s.running
  unfolding handle_probe
  handle_probe-running s probe mailbox =
      handle_admitted-running (record s { admission = _ }) probe mailbox _
