-- ===== src/NodeDirectory/Choice.antt =====
-- How the directory hands nodes out (src/gateway/core/node_directory.cc), and the choice of the round
-- robin scheduler among its candidates
-- (src/gateway/extensions/schedulers/round_robin/round_robin_scheduler.cc).
pub mod Search
pub mod Turns
use strij.Base.{
  ℕ, zero, suc, ◌+◌, ◌%◌, ◌<◌, ◌≡◌, ◌⊎◌, refl, sym, ap, ◌∙◌, subst, String, Bool, true, false, ◌||◌,
  ◌&&◌, List, [], ◌∷◌, Option, none, some, arith, Bool-cases, Option-cases, inl, inr, if◌then◌else◌,
  length, get_elem?, str_eq, Assoc, lookup,
}
use native.Mathlib.Nat.{mod-lt}
use strij.NodeDirectory.{Node, Directory, is_available}

-- `GetNode`
abbrev pub get_node : Directory → String → Option Node
get_node d node_id = lookup node_id d.nodes

-- `GetNodeCount`
abbrev pub get_node_count : Directory → ℕ
get_node_count d = length d.nodes

-- The rounds of `GetNextNode` that are left, from its `i` on.
unfoldable pub next_from : ℕ → ℕ → Directory → Option (Node × Directory)
next_from zero i d = none
next_from (suc left) i d =
    let total = length d.nodes in
    let idx = (d.next_node_index + i) % total in
    elim (get_elem? d.nodes idx) [
      | none ↦ none
      | some entry ↦
          let rest = next_from left (suc i) d in
          if is_available entry.1
          then some (entry.1, record d { next_node_index = (idx + 1) % total })
          else rest
    ]

-- `GetNextNode`
unfoldable pub get_next_node : Directory → Option (Node × Directory)
unfolding next_from
get_next_node d = next_from (length d.nodes) 0 d

abbrev pub has_protocol : String → List String → Bool
has_protocol protocol [] = false
has_protocol protocol (name ∷ names) = str_eq name protocol || has_protocol protocol names

-- The tests of `GetCandidates` on a node.
abbrev pub is_candidate : String → Node → Bool
is_candidate protocol node = is_available node && (elim node.capabilities [
  | none ↦ true
  | some c ↦ has_protocol protocol c.scheduling_protocols
])

-- `GetCandidates`
unfoldable pub candidates_of : String → Assoc Node → List Node
candidates_of protocol [] = []
candidates_of protocol ((node_id, node) ∷ nodes) =
    if is_candidate protocol node
    then node ∷ candidates_of protocol nodes
    else candidates_of protocol nodes

abbrev pub get_candidates : Directory → String → List Node
get_candidates d protocol = candidates_of protocol d.nodes

-- `RoundRobinScheduler::choose` among the candidates; `at` throws out of range, which is `none`.
unfoldable pub choose_among : List Node → ℕ → Option (Node × ℕ)
choose_among [] next_index = none
choose_among (first ∷ rest) next_index =
    let candidates = first ∷ rest in
    elim (get_elem? candidates (next_index % length candidates)) [
      | none ↦ none
      | some node ↦ some (node, (next_index + 1) % length candidates)
    ]

-- `RoundRobinScheduler::choose`, with its `next_index_`
unfoldable pub choose : Directory → ℕ → Option (Node × ℕ)
unfolding candidates_of choose_among
choose d next_index = choose_among (get_candidates d "push") next_index
