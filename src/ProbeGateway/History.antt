-- ===== src/ProbeGateway/History.antt =====
-- Every history of the gateway's probe scheduler: tasks scheduled, frames from nodes, sweeps, and
-- changes of the directory and the storage by the rest of the gateway.
use strij.Base.{
  ℕ, ◌+◌, ◌≤◌, ◌≡◌, refl, subst, String, [], some, arith, if◌then◌else◌, ◌==◌, lookup, str_eq,
  Bool-cases, Option-cases, inl, inr,
}
use strij.Task.{Task}
use strij.Tlv.{Frame, task_pull, task_decline}
use strij.NodeDirectory.{Directory}
use strij.ResultStorage.{Storage}
use strij.ProbeGateway.{
  Codec, Connection, ProbeScheduler, FrameStatus, schedule, sweep_expired, handle_frame,
}
use strij.ProbeGateway.Grants.{grants}
use strij.ProbeGateway.Rounds.{open_rounds, Within}
use strij.ProbeGateway.Steps.{
  schedule-Within, same-Within, sweep_from-Within, handle_pull-Within, handle_decline-Within,
}

module _ (draw : String → ℕ → ℕ → ℕ) (codec : Codec) where
  -- The states that a scheduler can reach, with the number of times that the task `id` was handed to
  -- `Schedule`.
  pub data History (id : String) : ProbeScheduler → ℕ → Type 0 where
    created : {s : ProbeScheduler} → s.pending ≡ [] → s.sent ≡ [] → History id s 0
    scheduled :
        {s s' : ProbeScheduler} {n : ℕ} (task : Task) (receiver now : ℕ)
        → History id s n
        → schedule draw s task receiver now ≡ some s'
        → History id s' ((if str_eq task.id id then 1 else 0) + n)
    received :
        {s s' : ProbeScheduler} {n : ℕ} (frame : Frame) (conn : Connection) (status : FrameStatus)
        → History id s n
        → handle_frame codec s frame conn ≡ some (s', status)
        → History id s' n
    swept :
        {s s' : ProbeScheduler} {n : ℕ} (now : ℕ)
        → History id s n
        → sweep_expired now s ≡ some s'
        → History id s' n
    changed :
        {s : ProbeScheduler} {n : ℕ} (d : Directory) (storage : Storage)
        → History id s n
        → History id (record s { directory = d; storage = storage }) n

  handle_frame-Within :
      (id : String) (n : ℕ) (s s' : ProbeScheduler) (frame : Frame) (conn : Connection)
      (status : FrameStatus)
      → Within id n s
      → handle_frame codec s frame conn ≡ some (s', status)
      → Within id n s'
  unfolding handle_frame
  handle_frame-Within id n s s' frame conn status w e =
      elim (Bool-cases (frame.type_id == task_pull)) [
        | inl pulls ↦ elim (Option-cases (codec.parse_pull frame.value)) [
          | inl malformed ↦ subst (Within id n) (ground (arith, e, pulls, malformed)) w
          | inr (task_id, parsed) ↦
              handle_pull-Within id n s s' conn task_id status (lookup task_id s.pending) w refl
                (ground (arith, e, pulls, parsed))
        ]
        | inr no_pull ↦ elim (Bool-cases (frame.type_id == task_decline)) [
          | inl declines ↦ elim (Option-cases (codec.parse_decline frame.value)) [
            | inl malformed ↦
                subst (Within id n) (ground (arith, e, no_pull, declines, malformed)) w
            | inr ((task_id, reason), parsed) ↦
                subst (Within id n) (ground (arith, e, no_pull, declines, parsed)) (
                  handle_decline-Within id n s conn task_id reason (lookup task_id s.pending) w
                    refl)
          ]
          | inr foreign ↦ subst (Within id n) (ground (arith, e, no_pull, foreign)) w
        ]
      ]

  History-Within : (id : String) (s : ProbeScheduler) (n : ℕ) → History id s n → Within id n s
  unfolding sweep_expired
  History-Within id s n (created p e) = record {
    keyed = rw (p) tt;
    bound = rw (p, e) (omega arith);
  }
  History-Within id s n (scheduled task receiver now h e) =
      schedule-Within id _ draw _ s task receiver now (History-Within id _ _ h) e
  History-Within id s n (received frame conn status h e) =
      handle_frame-Within id n _ s frame conn status (History-Within id _ n h) e
  History-Within id s n (swept {s = t} now h e) =
      let w = History-Within id t n h in
      sweep_from-Within id n now t.pending [] t s w.keyed tt (omega (arith, w.bound)) e
  History-Within id _ n (changed {s = t} d storage h) =
      same-Within id n t _ (History-Within id t n h) refl refl

  -- In every history, a task is granted no more often than it was handed to `Schedule`, and a round
  -- that is open for it counts as a grant to come.
  pub grants-bounded :
      (id : String) (s : ProbeScheduler) (n : ℕ)
      → History id s n
      → grants id s.sent + open_rounds id s.pending ≤ n
  grants-bounded id s n h = (History-Within id s n h).bound
