-- ===== src/ProbeGateway/Grants.antt =====
-- How often the gateway's probe scheduler grants a task.
use strij.Base.{
  ℕ, ◌+◌, ◌≡◌, String, Bool, false, List, [], ◌∷◌, ◌++◌, some, arith, if◌then◌else◌, Assoc, str_eq,
}
use strij.Task.{Task}
use strij.NodeDirectory.{Node, Directory}
use strij.ProbeGateway.{
  Target, Message, probe, grant, cancel, PendingProbe, to_node, send_probes, send_cancels, probe_of,
}

-- The grants of a task among the messages that were written.
abbrev pub is_grant_of : String → Message → Bool
is_grant_of id (probe p) = false
is_grant_of id (grant task) = str_eq task.id id
is_grant_of id (cancel task_id) = false

abbrev pub grants : String → List (Target × Message) → ℕ
grants id [] = 0
grants id ((target, message) ∷ sent) = (if is_grant_of id message then 1 else 0) + grants id sent

pub grants-append :
    (id : String) (xs ys : List (Target × Message))
    → grants id (xs ++ ys) ≡ grants id xs + grants id ys
grants-append id [] ys = omega arith
grants-append id ((target, message) ∷ xs) ys = omega (arith, grants-append id xs ys)

pub grants-send_probes :
    (id : String) (task : Task) (nodes : List Node) (sent sent' : List (Target × Message))
    → send_probes task nodes sent ≡ some sent'
    → grants id sent' ≡ grants id sent
grants-send_probes id task [] sent sent' e = ground (arith, e)
grants-send_probes id task (node ∷ nodes) sent sent' e =
    let written : List (Target × Message) = (to_node node.node_id, probe (probe_of task)) ∷ [] in
    ground (
      arith,
      e,
      grants-append id sent written,
      grants-send_probes id task nodes (sent ++ written) sent',
    )

pub grants-send_cancels :
    (id : String) (d : Directory) (task_id : String) (ids : List String)
    (sent sent' : List (Target × Message))
    → send_cancels d task_id ids sent ≡ some sent'
    → grants id sent' ≡ grants id sent
grants-send_cancels id d task_id [] sent sent' e = ground (arith, e)
grants-send_cancels id d task_id (node_id ∷ ids) sent sent' e =
    let written : List (Target × Message) = (to_node node_id, cancel task_id) ∷ [] in
    ground (
      arith,
      e,
      grants-append id sent written,
      grants-send_cancels id d task_id ids sent sent',
      grants-send_cancels id d task_id ids (sent ++ written) sent',
    )

-- The rounds are keyed by the id of their task, and no id has two.
abbrev pub Keyed : Assoc PendingProbe → Type 0
Keyed [] = Unit {0}
Keyed ((task_id, p) ∷ rounds) = (p.task.id ≡ task_id) × Keyed rounds
