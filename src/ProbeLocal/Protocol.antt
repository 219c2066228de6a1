-- ===== src/ProbeLocal/Protocol.antt =====
-- What happens to the probe local scheduler of a node, as a step relation: frames from gateways,
-- commands, and tasks that end; and that no sequence of them loses capacity or holds it twice.
use strij.Base.{
  ℕ, suc, ◌<◌, ◌≡◌, inl, inr, refl, sym, subst, ap, ◌∙◌, false, List, [], ◌∷◌, ◌++◌, some, arith,
  Bool-cases, Option-cases, u64_mod, length, append_assoc, Distinct, ◌==◌, lookup,
}
use strij.Task.{Task}
use strij.Tlv.{Frame, task_probe, task_grant, task_probe_cancel}
use strij.BoundedQueue.{push}
use strij.Admission.{Controller, Status}
use strij.Admission.Holders.{Holder, IsExact}
use strij.Admission.Scope.{AdmissionScope, release_scope}
use strij.ProbeLocal.{
  Codec, TaskProbe, Scheduler, walk, handle_probe, handle_admitted, put_pending, start_prefetch,
}
use strij.ProbeLocal.Frames.{Command, process_command, handle_frame}
use strij.ProbeLocal.Books.{
  holder, holders, pending_holders, running_holders, Same-IsExact, Same-from_middle,
  running_holders-append,
}
use strij.ProbeLocal.Capacity.{release_scope-IsExact}
use strij.ProbeLocal.Handlers.{AllRequests, handle_probe-Grows}
use strij.ProbeLocal.Balance.{walk-IsBalanced, AllRequests-append}
use strij.ProbeLocal.Running.{AllLive, handle_probe-running}
use strij.ProbeLocal.Safety.{
  IsReady, HasRoom, walk-IsReady, handle_grant-IsReady, handle_cancel-IsReady, command-IsReady,
}

-- A parsed probe has a protobuf map of requirements: no pool twice.
abbrev pub ParsesMaps : Codec → Type 0
ParsesMaps codec =
    (bytes : List ℕ) (probe : TaskProbe)
    → codec.parse_probe bytes ≡ some probe
    → Distinct probe.requirements

module _ (codec : Codec) where
  handle_admitted-AllRequests :
      (s : Scheduler) (probe : TaskProbe) (mailbox : ℕ) (status : Status)
      → AllRequests s.queue.queue
      → Distinct probe.requirements
      → AllRequests (handle_admitted codec s probe mailbox status).queue.queue
  unfolding handle_admitted put_pending start_prefetch push
  handle_admitted-AllRequests s probe mailbox status ds d = ground (
    arith,
    ds,
    AllRequests-append s.queue.queue (record { probe = probe; pull_mailbox = mailbox } ∷ []) ds
        (d, tt),
  )

  handle_probe-IsReady :
      (s : Scheduler) (probe : TaskProbe) (mailbox : ℕ)
      → IsReady s
      → Distinct probe.requirements
      → suc (length (holders s)) < u64_mod
      → IsReady (handle_probe codec s probe mailbox)
  handle_probe-IsReady s probe mailbox ready d room = record {
    balanced = (handle_probe-Grows codec s ready.balanced room probe mailbox d).0;
    requests =
        unfold handle_probe in
        (handle_admitted-AllRequests (record s { admission = _ }) probe mailbox _ ready.requests d);
    live = subst AllLive (sym (handle_probe-running codec s probe mailbox)) ready.live;
  }

  walk_then_probe-IsReady :
      (s : Scheduler) (probe : TaskProbe) (mailbox : ℕ)
      → IsReady s
      → HasRoom s
      → Distinct probe.requirements
      → IsReady (handle_probe codec (walk codec s) probe mailbox)
  walk_then_probe-IsReady s probe mailbox ready room d =
      let grown = (walk-IsBalanced codec s ready.balanced ready.requests (omega (arith, room))).2 in
      handle_probe-IsReady (walk codec s) probe mailbox (walk-IsReady codec s ready room) d
        (omega (arith, room, grown))

  -- Whatever frame comes, well formed or not.
  pub handle_frame-IsReady :
      (s : Scheduler) (frame : Frame) (mailbox : ℕ)
      → ParsesMaps codec
      → IsReady s
      → HasRoom s
      → IsReady (handle_frame codec s frame mailbox).0
  unfolding handle_frame
  handle_frame-IsReady s frame mailbox maps ready room =
      elim (Bool-cases (frame.type_id == task_probe)) [
        | inl is_probe ↦ elim (Option-cases (codec.parse_probe frame.value)) [
          | inl malformed ↦ rw (handle_frame, is_probe, malformed) ready
          | inr (probe, e) ↦
              rw (handle_frame, is_probe, e)
                (walk_then_probe-IsReady s probe mailbox ready room (maps frame.value probe e))
        ]
        | inr no_probe ↦ elim (Bool-cases (frame.type_id == task_grant)) [
          | inl is_grant ↦ elim (Option-cases (codec.parse_task frame.value)) [
            | inl malformed ↦ rw (handle_frame, no_probe, is_grant, malformed) ready
            | inr (task, e) ↦
                rw (handle_frame, no_probe, is_grant, e)
                  (handle_grant-IsReady codec s ready task (lookup task.id s.pull_pending) refl)
          ]
          | inr no_grant ↦ elim (Bool-cases (frame.type_id == task_probe_cancel)) [
            | inl is_cancel ↦ elim (Option-cases (codec.parse_cancel frame.value)) [
              | inl malformed ↦ rw (handle_frame, no_probe, no_grant, is_cancel, malformed) ready
              | inr (task_id, e) ↦
                  rw (handle_frame, no_probe, no_grant, is_cancel, e)
                    (handle_cancel-IsReady codec s ready task_id)
            ]
            | inr other ↦ rw (handle_frame, no_probe, no_grant, other) ready
          ]
        ]
      ]

AllLive-middle :
    (before after : List (Task × AdmissionScope)) (x : Task × AdmissionScope)
    → AllLive (before ++ x ∷ after)
    → (x.1.released ≡ false) × AllLive (before ++ after)
AllLive-middle [] after x live = live
AllLive-middle (b ∷ before) after x live =
    let (u, rest) = AllLive-middle before after x live.1 in (u, (live.0, rest))

-- The scope of one of the running tasks, apart from the others.
middle-IsExact :
    (c : Controller) (ps : List Holder) (before after : List (Task × AdmissionScope))
    (x : Task × AdmissionScope)
    → IsExact c (ps ++ running_holders (before ++ x ∷ after))
    → IsExact c (holder x.1 ∷ ps ++ running_holders (before ++ after))
middle-IsExact c ps before after x exact =
    let apart =
      ap (◌++◌ ps) (running_holders-append before (x ∷ after))
      ∙ sym (append_assoc ps (running_holders before) (holder x.1 ∷ running_holders after)) in
    let together =
      append_assoc ps (running_holders before) (running_holders after)
      ∙ ap (◌++◌ ps) (sym (running_holders-append before after)) in
    subst (λ hs. IsExact c (holder x.1 ∷ hs)) together
      (Same-IsExact c _ _
        (Same-from_middle (ps ++ running_holders before) (running_holders after) (holder x.1))
        (subst (IsExact c) apart exact))

-- A task that ends: its sender sends the final result, and the scope it held is released.
finished-IsReady :
    (s : Scheduler) (before after : List (Task × AdmissionScope)) (task : Task)
    (scope : AdmissionScope)
    → s.running ≡ before ++ (task, scope) ∷ after
    → IsReady s
    → IsReady
        (record s { running = before ++ after; admission = (release_scope s.admission scope).0 })
finished-IsReady s before after task scope e ready =
    let (u, live) = AllLive-middle before after (task, scope) (subst AllLive e ready.live) in
    let exact =
      middle-IsExact s.admission (pending_holders s.pull_pending) before after (task, scope)
        (subst (λ r. IsExact s.admission (pending_holders s.pull_pending ++ running_holders r)) e
          ready.balanced.exact) in
    record {
      balanced = record {
        exact = release_scope-IsExact s.admission scope _ u exact;
        kept = ready.balanced.kept;
      };
      requests = ready.requests;
      live = live;
    }

-- What happens to the scheduler. A frame or a command comes while the number of scopes is far from
-- the wrap-around of the counters.
pub data Step (codec : Codec) : Scheduler → Scheduler → Type 0 where
  frame_came :
      {s : Scheduler} (frame : Frame) (mailbox : ℕ)
      → HasRoom s
      → Step codec s (handle_frame codec s frame mailbox).0
  command_came :
      {s : Scheduler} (command : Command)
      → HasRoom s
      → Step codec s (process_command codec s command)
  task_finished :
      {s : Scheduler} (before after : List (Task × AdmissionScope)) (task : Task)
      (scope : AdmissionScope)
      → s.running ≡ before ++ (task, scope) ∷ after
      → Step codec s
          (record s { running = before ++ after; admission = (release_scope s.admission scope).0 })

pub data Reach (codec : Codec) (start : Scheduler) : Scheduler → Type 0 where
  here : Reach codec start start
  then_step : {s t : Scheduler} → Reach codec start s → Step codec s t → Reach codec start t

Step-IsReady :
    (codec : Codec) (s t : Scheduler) → ParsesMaps codec → Step codec s t → IsReady s → IsReady t
Step-IsReady codec s _ maps (frame_came frame mailbox room) ready =
    handle_frame-IsReady codec s frame mailbox maps ready room
Step-IsReady codec s _ maps (command_came command room) ready =
    command-IsReady codec s ready command room
Step-IsReady codec s _ maps (task_finished before after task scope e) ready =
    finished-IsReady s before after task scope e ready

pub Reach-IsReady :
    (codec : Codec) (start s : Scheduler)
    → ParsesMaps codec
    → IsReady start
    → Reach codec start s
    → IsReady s
Reach-IsReady codec start _ maps ready here = ready
Reach-IsReady codec start _ maps ready (then_step {s} {t} reach step) =
    Step-IsReady codec s t maps step (Reach-IsReady codec start s maps ready reach)
