-- ===== src/ProbeGateway/Sweep.antt =====
-- `SweepExpired` of the gateway's probe scheduler: what becomes of the rounds that are overdue.
use strij.Base.{
  ℕ, ◌≡◌, refl, String, true, List, [], ◌∷◌, ◌++◌, some, if◌then◌else◌, leb, Assoc, lookup,
  contains, contains-lookup, Bool-cases, Option-cases, inl, inr, append_assoc, append-nil,
}
use strij.Task.{deadline_exceeded}
use strij.NodeDirectory.{Node, Directory}
use strij.ResultStorage.{Delivery, error}
use strij.ProbeGateway.{
  Target, Message, cancel, PendingProbe, ProbeScheduler, to_node, send_cancels, expire, fail,
  sweep_from, sweep_expired,
}

-- The rounds that are not overdue, in order.
abbrev pub spared : ℕ → Assoc PendingProbe → Assoc PendingProbe
spared now [] = []
spared now ((task_id, p) ∷ rounds) =
    if leb now p.deadline then (task_id, p) ∷ spared now rounds else spared now rounds

-- The error for each round that is overdue.
abbrev pub expirations : ℕ → Assoc PendingProbe → List (ℕ × Delivery)
expirations now [] = []
expirations now ((task_id, p) ∷ rounds) =
    if leb now p.deadline
    then expirations now rounds
    else (p.receiver, error "no node claimed the task within the probe deadline" deadline_exceeded)
      ∷ expirations now rounds

-- The cancels that the overdue rounds get: one for each probed node that is still in the directory.
abbrev pub cancels_of : Directory → String → List String → List (Target × Message)
cancels_of d task_id [] = []
cancels_of d task_id (node_id ∷ ids) =
    if contains node_id d.nodes
    then (to_node node_id, cancel task_id) ∷ cancels_of d task_id ids
    else cancels_of d task_id ids

abbrev pub all_cancels : ℕ → Directory → Assoc PendingProbe → List (Target × Message)
all_cancels now d [] = []
all_cancels now d ((task_id, p) ∷ rounds) =
    if leb now p.deadline
    then all_cancels now d rounds
    else cancels_of d task_id p.probed_node_ids ++ all_cancels now d rounds

-- Every node of the list that is in the directory has its connection.
abbrev pub Connected : Directory → List String → Type 0
Connected d [] = Unit {0}
Connected d (node_id ∷ ids) =
    ((node : Node) → lookup node_id d.nodes ≡ some node → node.has_connection ≡ true)
    × Connected d ids

abbrev pub AllConnected : Directory → Assoc PendingProbe → Type 0
AllConnected d [] = Unit {0}
AllConnected d ((task_id, p) ∷ rounds) = Connected d p.probed_node_ids × AllConnected d rounds

pub send_cancels-sent :
    (d : Directory) (task_id : String) (ids : List String) (sent : List (Target × Message))
    → Connected d ids
    → send_cancels d task_id ids sent ≡ some (sent ++ cancels_of d task_id ids)
send_cancels-sent d task_id [] sent c = rw (append-nil sent) refl
send_cancels-sent d task_id (node_id ∷ ids) sent c =
    let written : List (Target × Message) = (to_node node_id, cancel task_id) ∷ [] in
    elim (Option-cases (lookup node_id d.nodes)) [
      | inl missing ↦
          rw (send_cancels, contains-lookup node_id d.nodes, missing)
            (send_cancels-sent d task_id ids sent c.1)
      | inr (node, found) ↦
          rw
            (
              send_cancels,
              contains-lookup node_id d.nodes,
              found,
              c.0 node found,
              send_cancels-sent d task_id ids (sent ++ written) c.1,
              append_assoc sent written (cancels_of d task_id ids),
            )
            refl
    ]

-- Where every probed node that is in the directory has its connection, a round that is overdue ends
-- with its cancels and its error.
expire-done :
    (s : ProbeScheduler) (task_id : String) (p : PendingProbe)
    → Connected s.directory p.probed_node_ids
    → expire s task_id p
      ≡ some (
          fail
            (record s { sent = s.sent ++ cancels_of s.directory task_id p.probed_node_ids })
            p.receiver
            (error "no node claimed the task within the probe deadline" deadline_exceeded))
unfolding expire
expire-done s task_id p c =
    rw (expire, send_cancels-sent s.directory task_id p.probed_node_ids s.sent c) refl

-- The scheduler that a sweep of these rounds leaves.
abbrev pub swept : ℕ → Assoc PendingProbe → Assoc PendingProbe → ProbeScheduler → ProbeScheduler
swept now rounds kept s = record s {
  pending = kept ++ spared now rounds;
  storage = record s.storage { deliveries = s.storage.deliveries ++ expirations now rounds };
  sent = s.sent ++ all_cancels now s.directory rounds;
}

sweep_from-swept :
    (now : ℕ) (rounds kept : Assoc PendingProbe) (s : ProbeScheduler)
    → AllConnected s.directory rounds
    → sweep_from now rounds kept s ≡ some (swept now rounds kept s)
unfolding sweep_from
sweep_from-swept now [] kept s c =
    rw (append-nil kept, append-nil s.storage.deliveries, append-nil s.sent) refl
sweep_from-swept now ((task_id, p) ∷ rounds) kept s c = elim (Bool-cases (leb now p.deadline)) [
  | inl early ↦
      rw
        (
          early,
          sweep_from-swept now rounds (kept ++ (task_id, p) ∷ []) s c.1,
          append_assoc kept ((task_id, p) ∷ []) (spared now rounds),
        )
        refl
  | inr late ↦
      let cancels = cancels_of s.directory task_id p.probed_node_ids in
      let failure : List (ℕ × Delivery) =
        (p.receiver, error "no node claimed the task within the probe deadline" deadline_exceeded)
        ∷ [] in
      rw
        (
          late,
          expire-done s task_id p c.0,
          sweep_from-swept now rounds kept
              (fail (record s { sent = s.sent ++ cancels }) p.receiver
                (error "no node claimed the task within the probe deadline" deadline_exceeded))
              c.1,
          append_assoc s.storage.deliveries failure (expirations now rounds),
          append_assoc s.sent cancels (all_cancels now s.directory rounds),
        )
        refl
]

-- A sweep, where the probed nodes in the directory have their connections, ends and resolves every
-- round that is overdue: its receiver gets one error, its nodes get their cancels, and the other
-- rounds stay as they are.
pub sweep_expired-resolves :
    (now : ℕ) (s : ProbeScheduler)
    → AllConnected s.directory s.pending
    → sweep_expired now s ≡ some (swept now s.pending [] s)
unfolding sweep_expired
sweep_expired-resolves now s c = sweep_from-swept now s.pending [] s c
