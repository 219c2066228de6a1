-- ===== src/ProbeGateway/Opening.antt =====
-- `Schedule` of the gateway's probe scheduler: the round that it opens.
use strij.Base.{
  ℕ, ◌+◌, ◌≤◌, ◌<◌, ◌≡◌, refl, String, Bool, false, List, [], ◌∷◌, ◌++◌, some, arith, ◌==◌, lookup,
  min, length, not, append_assoc, append-nil, insert, lookup-insert, eq_refl,
}
use strij.Task.{Task}
use strij.NodeDirectory.{Node}
use strij.NodeDirectory.Choice.{get_candidates}
use strij.ProbeGateway.{
  Target, Message, probe, PendingProbe, ProbeScheduler, to_node, send_probes, probe_of,
  sample_candidates, start_round, schedule, node_ids,
}
use strij.ProbeGateway.Sample.{count, sample_candidates-sub}

abbrev pub unconnected : Node → Bool
unconnected node = not node.has_connection

-- A probe for each node, in order.
abbrev pub probes_of : Task → List Node → List (Target × Message)
probes_of task [] = []
probes_of task (node ∷ nodes) = (to_node node.node_id, probe (probe_of task)) ∷ probes_of task nodes

send_probes-sent :
    (task : Task) (nodes : List Node) (sent : List (Target × Message))
    → count unconnected nodes ≤ 0
    → send_probes task nodes sent ≡ some (sent ++ probes_of task nodes)
send_probes-sent task [] sent c = rw (append-nil sent) refl
send_probes-sent task (node ∷ nodes) sent c =
    let written : List (Target × Message) = (to_node node.node_id, probe (probe_of task)) ∷ [] in
    ground (
      arith,
      c,
      send_probes-sent task nodes (sent ++ written),
      append_assoc sent written (probes_of task nodes),
    )

module _ (draw : String → ℕ → ℕ → ℕ) (s : ProbeScheduler) (task : Task) (receiver now : ℕ) where
  abbrev pub candidates : List Node
  candidates = get_candidates s.directory "probe"

  abbrev sampled : List Node
  sampled = sample_candidates draw candidates (min s.candidate_count (length candidates)) task.id

  -- A task for which there are candidates, all of them with their connections, opens a round that
  -- waits with its receiver until its deadline. It probes as many nodes as the configuration says, or
  -- as many as there are candidates; with respect to any property of nodes, it probes no more nodes
  -- that have it than there are candidates that have it. So all of them are candidates, and none is
  -- probed more often than it is there. Each gets one probe, in order, and nothing else is sent.
  pub schedule-opens :
      0 < s.candidate_count
      → 0 < length candidates
      → count unconnected candidates ≡ 0
      → (s' : ProbeScheduler) × (nodes : List Node) × (schedule draw s task receiver now ≡ some s')
        × (length nodes ≡ min s.candidate_count (length candidates))
        × ((p : Node → Bool) → count p nodes ≤ count p candidates)
        × (lookup task.id s'.pending
            ≡ some (record {
              task = task;
              receiver = receiver;
              probed_node_ids = node_ids nodes;
              deadline = now + s.probe_deadline;
            }))
        × (s'.sent ≡ s.sent ++ probes_of task nodes)
  unfolding schedule start_round
  schedule-opens asked some_there connected =
      let k = min s.candidate_count (length candidates) in
      let sub = sample_candidates-sub draw task.id candidates k in
      let round : PendingProbe = record {
        task = task;
        receiver = receiver;
        probed_node_ids = node_ids sampled;
        deadline = now + s.probe_deadline;
      } in
      let begun : (k == 0) ≡ false = ground (arith, asked, some_there) in
      let sent =
        send_probes-sent task sampled s.sent (omega (arith, sub.1 unconnected, connected)) in
      (
        record s {
          pending = insert task.id round s.pending;
          sent = s.sent ++ probes_of task sampled;
        },
        sampled,
        rw (schedule, begun, start_round, sent) refl,
        omega (arith, sub.0),
        sub.1,
        rw (lookup-insert task.id task.id round s.pending, eq_refl task.id) refl,
        refl,
      )
