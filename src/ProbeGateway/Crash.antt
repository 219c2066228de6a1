-- ===== src/ProbeGateway/Crash.antt =====
-- `SweepExpired` writes through the connection of a probed node that may have none any more.
use strij.Base.{
  ℕ, ◌≡◌, refl, ap, ◌∙◌, String, true, false, List, [], ◌∷◌, ◌++◌, eq_iff, none, some, arith, leb,
  Assoc, lookup, Bool-cases, Option-cases, inl, inr, has_id,
}
use strij.NodeDirectory.{Node, Directory}
use strij.ProbeGateway.{
  Target, Message, cancel, PendingProbe, ProbeScheduler, to_node, send_cancels, expire, sweep_from,
  sweep_expired,
}

module _ (node_id : String) (node : Node) (gone : node.has_connection ≡ false) where
  send_cancels-crashes :
      (d : Directory) (task_id : String) (ids : List String) (sent : List (Target × Message))
      → lookup node_id d.nodes ≡ some node
      → has_id node_id ids ≡ true
      → send_cancels d task_id ids sent ≡ none
  send_cancels-crashes d task_id [] sent found e = ground (arith, e)
  send_cancels-crashes d task_id (id ∷ ids) sent found e = ground (
    arith,
    e,
    found,
    gone,
    eq_iff id node_id,
    send_cancels-crashes d task_id ids sent found,
    send_cancels-crashes d task_id ids (sent ++ (to_node id, cancel task_id) ∷ []) found,
  )

  expire-crashes :
      (s : ProbeScheduler) (task_id : String) (p : PendingProbe)
      → lookup node_id s.directory.nodes ≡ some node
      → has_id node_id p.probed_node_ids ≡ true
      → expire s task_id p ≡ none
  unfolding expire
  expire-crashes s task_id p found probed =
      rw (expire, send_cancels-crashes s.directory task_id p.probed_node_ids s.sent found probed)
        refl

  expire-directory :
      (s s' : ProbeScheduler) (task_id : String) (p : PendingProbe)
      → expire s task_id p ≡ some s'
      → s'.directory ≡ s.directory
  unfolding expire
  expire-directory s s' task_id p e = ground (arith, e)

  sweep_from-crashes :
      (now : ℕ) (task_id : String) (p : PendingProbe) (rounds kept : Assoc PendingProbe)
      (s : ProbeScheduler)
      → lookup task_id rounds ≡ some p
      → leb now p.deadline ≡ false
      → lookup node_id s.directory.nodes ≡ some node
      → has_id node_id p.probed_node_ids ≡ true
      → sweep_from now rounds kept s ≡ none
  unfolding sweep_from lookup
  sweep_from-crashes now task_id p [] kept s e late found probed = ground (arith, e)
  sweep_from-crashes now task_id p ((id, q) ∷ rounds) kept s e late found probed =
      elim (Bool-cases (leb now q.deadline)) [
        | inl early ↦
            rw (sweep_from, early)
              (sweep_from-crashes now task_id p rounds (kept ++ (id, q) ∷ []) s
                (ground (arith, e, early, late)) late found probed)
        | inr over ↦ elim (Option-cases (expire s id q)) [
          | inl crashed ↦ rw (sweep_from, over, crashed) refl
          | inr (s', done) ↦
              rw (sweep_from, over, done)
                (sweep_from-crashes now task_id p rounds kept s'
                  (ground (arith, e, done, expire-crashes s id p found probed)) late
                  (ap (λ d. lookup node_id d.nodes) (expire-directory s s' id q done) ∙ found)
                  probed)
        ]
      ]

-- If a round is overdue and a node that it probed is still in the directory but has lost its
-- connection, the sweep ends in a call through a null pointer.
pub sweep_expired-crashes :
    (now : ℕ) (s : ProbeScheduler) (task_id node_id : String) (p : PendingProbe) (node : Node)
    → lookup task_id s.pending ≡ some p
    → leb now p.deadline ≡ false
    → has_id node_id p.probed_node_ids ≡ true
    → lookup node_id s.directory.nodes ≡ some node
    → node.has_connection ≡ false
    → sweep_expired now s ≡ none
unfolding sweep_expired
sweep_expired-crashes now s task_id node_id p node e late probed found gone =
    sweep_from-crashes node_id node gone now task_id p s.pending [] s e late found probed
