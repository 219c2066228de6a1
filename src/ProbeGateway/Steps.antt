-- ===== src/ProbeGateway/Steps.antt =====
-- Each operation of the gateway's probe scheduler keeps the count of rounds and grants.
use strij.Base.{
  ℕ, ◌+◌, ◌≤◌, ◌≡◌, refl, subst, String, List, [], ◌∷◌, ◌++◌, Option, none, some, arith,
  if◌then◌else◌, leb, ◌==◌, Assoc, lookup, insert, erase, str_eq, eq_iff, min, length, Bool-cases,
  Option-cases, inl, inr, has_id,
}
use strij.Task.{Task}
use strij.NodeDirectory.{Node}
use strij.NodeDirectory.Choice.{get_candidates}
use strij.ResultStorage.{Storage}
use strij.ResultStorage as ResultStorage
use strij.ProbeGateway.{
  Connection, Target, Message, grant, cancel, PendingProbe, ProbeScheduler, FrameStatus,
  send_probes, send_cancels, others, sample_candidates, start_round, schedule, expire, sweep_from,
  grant_to, handle_pull, without, handle_decline, node_ids, write_on, to_connection,
}
use strij.ProbeGateway.Grants.{
  grants, grants-append, grants-send_probes, grants-send_cancels, Keyed,
}
use strij.ProbeGateway.Rounds.{
  open_rounds, Within, Keyed-insert, Keyed-erase, Keyed-lookup, open_rounds-insert,
  open_rounds-replace, open_rounds-erase_le, open_rounds-erase, Keyed-append, open_rounds_snoc,
}

module _ (id : String) (n : ℕ) where
  start_round-Within :
      (draw : String → ℕ → ℕ → ℕ) (s s' : ProbeScheduler) (task : Task) (receiver now : ℕ)
      (sampled : List Node)
      → Within id n s
      → start_round draw s task receiver now sampled ≡ some s'
      → Within id ((if str_eq task.id id then 1 else 0) + n) s'
  unfolding start_round
  start_round-Within draw s s' task receiver now sampled w e =
      elim (Option-cases (send_probes task sampled s.sent)) [
        | inl crashed ↦ ground (arith, e, crashed)
        | inr (sent, written) ↦
            let round : PendingProbe = record {
              task = task;
              receiver = receiver;
              probed_node_ids = node_ids sampled;
              deadline = now + s.probe_deadline;
            } in
            let started : Within id ((if str_eq task.id id then 1 else 0) + n)
                (record s { pending = insert task.id round s.pending; sent = sent }) =
              record {
                keyed = Keyed-insert round s.pending w.keyed;
                bound = omega (
                  arith,
                  w.bound,
                  open_rounds-insert id task.id round s.pending,
                  grants-send_probes id task sampled s.sent sent written,
                );
              } in
            subst (Within id _) (ground (arith, e, written)) started
      ]

  weaken-Within : (m : ℕ) (s : ProbeScheduler) → Within id n s → Within id (m + n) s
  weaken-Within m s w = record { keyed = w.keyed; bound = omega (arith, w.bound) }

  pub same-Within :
      (s s' : ProbeScheduler)
      → Within id n s
      → s'.pending ≡ s.pending
      → s'.sent ≡ s.sent
      → Within id n s'
  same-Within s s' w p e = record { keyed = rw (p) w.keyed; bound = rw (p, e) w.bound }

  pub schedule-Within :
      (draw : String → ℕ → ℕ → ℕ) (s s' : ProbeScheduler) (task : Task) (receiver now : ℕ)
      → Within id n s
      → schedule draw s task receiver now ≡ some s'
      → Within id ((if str_eq task.id id then 1 else 0) + n) s'
  unfolding schedule
  schedule-Within draw s s' task receiver now w e =
      let candidates = get_candidates s.directory "probe" in
      let effective_k = min s.candidate_count (length candidates) in
      elim (Bool-cases (effective_k == 0)) [
        | inl refused ↦
            weaken-Within _ s'
              (same-Within s s' w (ground (arith, e, refused)) (ground (arith, e, refused)))
        | inr begun ↦
            start_round-Within draw s s' task receiver now
              (sample_candidates draw candidates effective_k task.id) w (ground (arith, e, begun))
      ]

  sweep_end :
      (s : ProbeScheduler) (kept : Assoc PendingProbe)
      → Keyed kept
      → grants id s.sent + open_rounds id kept ≤ n
      → Within id n (record s { pending = kept })
  sweep_end s kept k b = record { keyed = k; bound = b }

  grants-expire :
      (s t : ProbeScheduler) (task_id : String) (p : PendingProbe)
      → expire s task_id p ≡ some t
      → grants id t.sent ≡ grants id s.sent
  unfolding expire
  grants-expire s t task_id p e =
      elim (Option-cases (send_cancels s.directory task_id p.probed_node_ids s.sent)) [
        | inl crashed ↦ ground (arith, e, crashed)
        | inr (sent, written) ↦ ground (
          arith,
          e,
          written,
          grants-send_cancels id s.directory task_id p.probed_node_ids s.sent sent written,
        )
      ]

  pub sweep_from-Within :
      (now : ℕ) (rounds kept : Assoc PendingProbe) (s s' : ProbeScheduler)
      → Keyed rounds
      → Keyed kept
      → grants id s.sent + open_rounds id kept + open_rounds id rounds ≤ n
      → sweep_from now rounds kept s ≡ some s'
      → Within id n s'
  unfolding sweep_from
  sweep_from-Within now [] kept s s' kr kk b e =
      subst (Within id n) (ground (arith, e)) (sweep_end s kept kk (omega (arith, b)))
  sweep_from-Within now ((i, p) ∷ rounds) kept s s' kr kk b e =
      elim (Bool-cases (leb now p.deadline)) [
        | inl early ↦
            sweep_from-Within now rounds (kept ++ (i, p) ∷ []) s s' kr.1
              (Keyed-append kept i p kk kr.0) (omega (arith, b, open_rounds_snoc id i p kept))
              (ground (arith, e, early))
        | inr late ↦ elim (Option-cases (expire s i p)) [
          | inl crashed ↦ ground (arith, e, late, crashed)
          | inr (t, done) ↦
              sweep_from-Within now rounds kept t s' kr.1 kk
                (omega (arith, b, grants-expire s t i p done)) (ground (arith, e, late, done))
        ]
      ]

  cancelled-Within :
      (s : ProbeScheduler) (conn : Connection) (task_id : String)
      → Within id n s
      → Within id n (write_on s conn (cancel task_id))
  cancelled-Within s conn task_id w = record {
    keyed = w.keyed;
    bound = omega (
      arith,
      w.bound,
      grants-append id s.sent ((to_connection conn.number, cancel task_id) ∷ []),
    );
  }

  grant_bound :
      (s : ProbeScheduler) (conn : Connection) (task_id : String) (p : PendingProbe)
      (sent : List (Target × Message))
      → Within id n s
      → lookup task_id s.pending ≡ some p
      → grants id sent ≡ grants id (write_on s conn (grant p.task)).sent
      → grants id sent + open_rounds id (erase task_id s.pending) ≤ n
  grant_bound s conn task_id p sent w found e = ground (
    arith,
    e,
    w.bound,
    eq_iff p.task.id id,
    Keyed-lookup task_id p s.pending w.keyed found,
    grants-append id s.sent ((to_connection conn.number, grant p.task) ∷ []),
    open_rounds-erase task_id p s.pending found,
    open_rounds-erase_le id task_id s.pending,
  )

  -- The grant takes the place of the round.
  grant_to-Within :
      (s s' : ProbeScheduler) (conn : Connection) (task_id winner : String) (p : PendingProbe)
      → Within id n s
      → lookup task_id s.pending ≡ some p
      → grant_to s conn task_id p winner ≡ some s'
      → Within id n s'
  unfolding grant_to
  grant_to-Within s s' conn task_id winner p w found e =
      let granted = write_on s conn (grant p.task) in
      let losers = others winner p.probed_node_ids in
      elim (Option-cases (send_cancels s.directory task_id losers granted.sent)) [
        | inl crashed ↦ ground (arith, e, crashed)
        | inr (sent, written) ↦
            let done : Within id n (record s {
              storage = ResultStorage.put s.storage task_id p.receiver winner;
              pending = erase task_id s.pending;
              sent = sent;
            }) =
              record {
                keyed = Keyed-erase task_id s.pending w.keyed;
                bound =
                    grant_bound s conn task_id p sent w found
                      (grants-send_cancels id s.directory task_id losers granted.sent sent written);
              } in
            subst (Within id n) (ground (arith, e, written)) done
      ]

  pub handle_pull-Within :
      (s s' : ProbeScheduler) (conn : Connection) (task_id : String) (status : FrameStatus)
      (round : Option PendingProbe)
      → Within id n s
      → lookup task_id s.pending ≡ round
      → handle_pull s conn task_id round ≡ some (s', status)
      → Within id n s'
  unfolding handle_pull
  handle_pull-Within s s' conn task_id status none w found e =
      subst (Within id n) (ground (arith, e)) (cancelled-Within s conn task_id w)
  handle_pull-Within s s' conn task_id status (some p) w found e = elim (Option-cases conn.owner) [
    | inl nobody ↦ subst (Within id n) (ground (arith, e, nobody)) w
    | inr (winner, owns) ↦ elim (Bool-cases (has_id winner p.probed_node_ids)) [
      | inl probed ↦ elim (Option-cases (grant_to s conn task_id p winner)) [
        | inl crashed ↦ ground (arith, e, owns, probed, crashed)
        | inr (t, done) ↦
            subst (Within id n) (ground (arith, e, owns, probed, done))
              (grant_to-Within s t conn task_id winner p w found done)
      ]
      | inr stranger ↦
          subst (Within id n) (ground (arith, e, owns, stranger))
            (cancelled-Within s conn task_id w)
    ]
  ]

  declined-Within :
      (s : ProbeScheduler) (conn : Connection) (task_id reason : String) (p : PendingProbe)
      (left : List String)
      → Within id n s
      → lookup task_id s.pending ≡ some p
      → without conn.owner p.probed_node_ids ≡ left
      → Within id n (handle_decline s conn task_id reason (some p))
  unfolding handle_decline
  declined-Within s conn task_id reason p [] w found e =
      rw (handle_decline, e)
        (record {
          keyed = Keyed-erase task_id s.pending w.keyed;
          bound = omega (arith, w.bound, open_rounds-erase_le id task_id s.pending);
        })
  declined-Within s conn task_id reason p (node_id ∷ ids) w found e =
      let narrowed : PendingProbe = record p { probed_node_ids = node_id ∷ ids } in
      rw (handle_decline, e)
        (record {
          keyed =
              subst (λ key. Keyed (insert key narrowed s.pending))
                (Keyed-lookup task_id p s.pending w.keyed found)
                (Keyed-insert narrowed s.pending w.keyed);
          bound = omega (arith, w.bound, open_rounds-replace id task_id narrowed p s.pending found);
        })

  pub handle_decline-Within :
      (s : ProbeScheduler) (conn : Connection) (task_id reason : String)
      (round : Option PendingProbe)
      → Within id n s
      → lookup task_id s.pending ≡ round
      → Within id n (handle_decline s conn task_id reason round)
  unfolding handle_decline
  handle_decline-Within s conn task_id reason none w found = w
  handle_decline-Within s conn task_id reason (some p) w found =
      declined-Within s conn task_id reason p (without conn.owner p.probed_node_ids) w found refl
