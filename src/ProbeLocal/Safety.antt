-- ===== src/ProbeLocal/Safety.antt =====
-- The frames, the commands and the ends of tasks that the probe local scheduler meets, as steps, and
-- that no sequence of them loses capacity or holds it twice.
use strij.Base.{
  suc, ◌+◌, ◌<◌, ◌≡◌, inl, inr, refl, sym, subst, ap, ◌∙◌, false, List, [], ◌∷◌, ◌++◌, Option, none,
  some, arith, Option-cases, u64_mod, length, append_assoc, String, lookup, erase,
}
use strij.Task.{Task}
use strij.BoundedQueue.{size}
use strij.Admission.Holders.{Holder, IsExact}
use strij.Admission.Scope.{AdmissionScope}
use strij.ProbeLocal.{Codec, PullPending, Scheduler, drop_scope, walk}
use strij.ProbeLocal.Frames.{
  Command, capacity_released, dep_completed, other_command, process_command, handle_grant,
  handle_cancel, run_task,
}
use strij.ProbeLocal.Books.{
  holder, holders, pending_holders, running_holders, WellKept, Same-IsExact, Same-append,
  Same-to_end, running_holders-append,
}
use strij.ProbeLocal.Pending.{erase_old, erase_missing, WellKept-erase, WellKept-released}
use strij.ProbeLocal.Capacity.{IsBalanced, drop-IsExact}
use strij.ProbeLocal.Handlers.{AllRequests}
use strij.ProbeLocal.Balance.{walk-IsBalanced}
use strij.ProbeLocal.Removal.{remove_queued-AllRequests}
use strij.ProbeLocal.Running.{AllLive, walk-running}

-- The books are balanced, the queued requests are maps, and no running scope was released.
pub record IsReady (s : Scheduler) : Type 0 where
  pub balanced : IsBalanced s
  pub requests : AllRequests s.queue.queue
  pub live : AllLive s.running

-- Room for the scopes that a handler may add, below the wrap-around of the counters.
abbrev pub HasRoom : Scheduler → Type 0
HasRoom s = length (holders s) + suc (size s.queue) < u64_mod

pub AllLive-append :
    (xs ys : List (Task × AdmissionScope)) → AllLive xs → AllLive ys → AllLive (xs ++ ys)
AllLive-append [] ys dx dy = dy
AllLive-append (x ∷ xs) ys dx dy = (dx.0, AllLive-append xs ys dx.1 dy)

-- The scope of a new task stands behind the others.
holders_of_run :
    (ps : List Holder) (tasks : List (Task × AdmissionScope)) (task : Task) (scope : AdmissionScope)
    → (ps ++ running_holders tasks) ++ holder scope ∷ []
      ≡ ps ++ running_holders (tasks ++ (task, scope) ∷ [])
holders_of_run ps tasks task scope =
    append_assoc ps (running_holders tasks) (holder scope ∷ [])
    ∙ ap (◌++◌ ps) (sym (running_holders-append tasks ((task, scope) ∷ [])))

-- A granted task takes the scope of its entry over.
run_task-IsReady :
    (s : Scheduler) (task : Task) (pending : PullPending)
    → pending.scope.released ≡ false
    → WellKept s.pull_pending
    → IsExact s.admission (holder pending.scope ∷ holders s)
    → AllRequests s.queue.queue
    → AllLive s.running
    → IsReady (run_task s task pending.scope)
unfolding run_task drop_scope
run_task-IsReady s task pending u w x d live = elim (Option-cases (lookup task.type s.handlers)) [
  | inl missing ↦
      rw (run_task, missing)
        (record {
          balanced = record { exact = drop-IsExact s.admission pending (holders s) u x; kept = w };
          requests = d;
          live = live;
        })
  | inr (handler, e) ↦
      let same = Same-to_end (holder pending.scope) (holders s) in
      let moved = holders_of_run (pending_holders s.pull_pending) s.running task pending.scope in
      rw (run_task, e)
        (record {
          balanced = record {
            exact = subst (IsExact s.admission) moved (Same-IsExact s.admission _ _ same x);
            kept = w;
          };
          requests = d;
          live = AllLive-append s.running ((task, pending.scope) ∷ []) live (u, tt);
        })
]

-- An entry that leaves the map: its scope is apart from what the scheduler holds.
erased-IsExact :
    (s : Scheduler) (task_id : String) (pending : PullPending)
    → IsBalanced s
    → lookup task_id s.pull_pending ≡ some pending
    → IsExact s.admission (
        holder pending.scope ∷ pending_holders (erase task_id s.pull_pending)
        ++ running_holders s.running)
erased-IsExact s task_id pending b e =
    Same-IsExact s.admission _ _
      (Same-append (pending_holders s.pull_pending)
        (holder pending.scope ∷ pending_holders (erase task_id s.pull_pending))
        (running_holders s.running) (erase_old task_id pending s.pull_pending b.kept e))
      b.exact

module _ (codec : Codec) (s : Scheduler) (ready : IsReady s) where
  pub handle_grant-IsReady :
      (task : Task) (found : Option PullPending)
      → lookup task.id s.pull_pending ≡ found
      → IsReady (handle_grant codec s task found)
  unfolding handle_grant
  handle_grant-IsReady task none e = ready
  handle_grant-IsReady task (some pending) e =
      run_task-IsReady (record s { pull_pending = erase task.id s.pull_pending }) task pending
        (WellKept-released task.id s.pull_pending pending ready.balanced.kept e)
        (WellKept-erase task.id s.pull_pending ready.balanced.kept)
        (erased-IsExact s task.id pending ready.balanced e) ready.requests ready.live

  cancelled-IsExact :
      (task_id : String) (found : Option PullPending)
      → lookup task_id s.pull_pending ≡ found
      → IsExact
          (drop_scope s.admission found)
          (pending_holders (erase task_id s.pull_pending) ++ running_holders s.running)
  cancelled-IsExact task_id none e =
      rw (erase_missing task_id s.pull_pending e) (unfold drop_scope in ready.balanced.exact)
  cancelled-IsExact task_id (some pending) e =
      drop-IsExact s.admission pending _
        (WellKept-released task_id s.pull_pending pending ready.balanced.kept e)
        (erased-IsExact s task_id pending ready.balanced e)

  pub handle_cancel-IsReady : (task_id : String) → IsReady (handle_cancel codec s task_id)
  unfolding handle_cancel
  handle_cancel-IsReady task_id = record {
    balanced = record {
      exact = cancelled-IsExact task_id (lookup task_id s.pull_pending) refl;
      kept = WellKept-erase task_id s.pull_pending ready.balanced.kept;
    };
    requests = remove_queued-AllRequests s.queue task_id ready.requests;
    live = ready.live;
  }

  pub walk-IsReady : HasRoom s → IsReady (walk codec s)
  walk-IsReady room =
      let (b, d, grown) =
        walk-IsBalanced codec s ready.balanced ready.requests (omega (arith, room)) in
      record {
        balanced = b;
        requests = d;
        live = subst AllLive (sym (walk-running codec s)) ready.live;
      }

  pub command-IsReady : (command : Command) → HasRoom s → IsReady (process_command codec s command)
  unfolding process_command
  command-IsReady capacity_released room = walk-IsReady room
  command-IsReady dep_completed room = walk-IsReady room
  command-IsReady other_command room = ready
