-- ===== src/NodeDirectory/Choice/Turns.antt =====
-- The turns that the round robin gives to the nodes of the directory.
use strij.Base.{
  ℕ, zero, suc, ◌+◌, ◌%◌, ◌<◌, ◌≤◌, ◌≡◌, ◌⊎◌, refl, sym, ap, ◌∙◌, subst, String, true, List, [],
  ◌∷◌, none, some, arith, Bool-cases, Option-cases, inl, inr, length, get_elem?, Assoc, str_eq,
  eq_iff,
}
use native.Mathlib.Nat.{mod-lt, mod-eq_of_lt}
use strij.Capabilities.{NodeCapabilities}
use strij.NodeDirectory.{Node, Directory, is_available}
use strij.NodeDirectory.Choice.{
  has_protocol, is_candidate, candidates_of, get_candidates, choose_among, choose,
}
use strij.NodeDirectory.Choice.Search.{get_elem?-some, get_elem?-lt}

-- The name is one of the list.
abbrev pub IsAmong : String → List String → Type 0
IsAmong name names = (i : ℕ) × (get_elem? names i ≡ some name)

-- The node is available, and if it has advertised, then with the protocol.
abbrev pub Offers : String → Node → Type 0
Offers protocol node =
    (is_available node ≡ true)
    × ((caps : NodeCapabilities)
        → node.capabilities ≡ some caps
        → IsAmong protocol caps.scheduling_protocols)

has_protocol-IsAmong :
    (protocol : String) (names : List String)
    → has_protocol protocol names ≡ true
    → IsAmong protocol names
has_protocol-IsAmong protocol [] e = ground (arith, e)
has_protocol-IsAmong protocol (name ∷ names) e = elim (Bool-cases (str_eq name protocol)) [
  | inl here ↦ (0, ap some ((eq_iff name protocol).0 here))
  | inr there ↦
      let (i, at) = has_protocol-IsAmong protocol names (ground (arith, e, there)) in (suc i, at)
]

IsAmong-has_protocol :
    (protocol : String) (names : List String) (i : ℕ)
    → get_elem? names i ≡ some protocol
    → has_protocol protocol names ≡ true
IsAmong-has_protocol protocol [] i e = ground (arith, e)
IsAmong-has_protocol protocol (name ∷ names) zero e = ground (arith, e, eq_iff name protocol)
IsAmong-has_protocol protocol (name ∷ names) (suc i) e =
    ground (arith, IsAmong-has_protocol protocol names i e)

is_candidate-Offers :
    (protocol : String) (node : Node) → is_candidate protocol node ≡ true → Offers protocol node
is_candidate-Offers protocol node e = (
  ground (arith, e),
  λ caps advertised.
      has_protocol-IsAmong protocol caps.scheduling_protocols (ground (arith, e, advertised)),
)

Offers-is_candidate :
    (protocol : String) (node : Node) → Offers protocol node → is_candidate protocol node ≡ true
Offers-is_candidate protocol node (available, speaks) = elim (Option-cases node.capabilities) [
  | inl silent ↦ ground (arith, available, silent)
  | inr (caps, advertised) ↦
      let (i, at) = speaks caps advertised in
      ground
        (arith, available, advertised, IsAmong-has_protocol protocol caps.scheduling_protocols i at)
]

-- The node stands in the directory.
abbrev pub IsIn : Node → Assoc Node → Type 0
IsIn node nodes = (idx : ℕ) × (id : String) × (get_elem? nodes idx ≡ some (id, node))

get_elem?-cons :
    {A : Type 0} (x : A) (xs : List A) (i : ℕ) (y : A)
    → get_elem? (x ∷ xs) i ≡ some y
    → (x ≡ y) ⊎ ((j : ℕ) × (get_elem? xs j ≡ some y))
get_elem?-cons x xs zero y e = inl (ground (arith, e))
get_elem?-cons x xs (suc i) y e = inr (i, e)

candidates_of-Offers :
    (protocol : String) (nodes : Assoc Node) (j : ℕ) (node : Node)
    → get_elem? (candidates_of protocol nodes) j ≡ some node
    → IsIn node nodes × Offers protocol node
unfolding candidates_of
candidates_of-Offers protocol [] j node e = ground (arith, e)
candidates_of-Offers protocol ((id, first) ∷ nodes) j node e =
    elim (Bool-cases (is_candidate protocol first)) [
      | inr unfit ↦
          let ((idx, id', at), offers) =
            candidates_of-Offers protocol nodes j node (ground (arith, e, unfit)) in
          ((suc idx, id', at), offers)
      | inl fits ↦
          let listed : get_elem? (first ∷ candidates_of protocol nodes) j ≡ some node =
            ground (arith, e, fits) in
          elim (get_elem?-cons first (candidates_of protocol nodes) j node listed) [
            | inl same ↦
                let offers : Offers protocol node =
                  subst (Offers protocol) same (is_candidate-Offers protocol first fits) in
                ((0, id, ap (λ n. some (id, n)) same), offers)
            | inr (k, later) ↦
                let ((idx, id', at), offers) = candidates_of-Offers protocol nodes k node later in
                ((suc idx, id', at), offers)
          ]
    ]

Offers-candidates_of :
    (protocol : String) (nodes : Assoc Node) (idx : ℕ) (id : String) (node : Node)
    → get_elem? nodes idx ≡ some (id, node)
    → Offers protocol node
    → (j : ℕ) × (get_elem? (candidates_of protocol nodes) j ≡ some node)
unfolding candidates_of
Offers-candidates_of protocol [] idx id node at offers = ground (arith, at)
Offers-candidates_of protocol ((id', first) ∷ nodes) zero id node at offers =
    let this : first ≡ node = ground (arith, at) in
    (0, rw (this, Offers-is_candidate protocol node offers) refl)
Offers-candidates_of protocol ((id', first) ∷ nodes) (suc idx) id node at offers =
    let (j, there) = Offers-candidates_of protocol nodes idx id node at offers in
    elim (Bool-cases (is_candidate protocol first)) [
      | inl fits ↦ (suc j, rw (candidates_of, fits) there)
      | inr unfit ↦ (j, rw (candidates_of, unfit) there)
    ]

choose_among-some :
    (candidates : List Node) (next_index : ℕ) (node : Node)
    → get_elem? candidates (next_index % length candidates) ≡ some node
    → choose_among candidates next_index ≡ some (node, (next_index + 1) % length candidates)
unfolding choose_among
choose_among-some [] next_index node e = ground (arith, e)
choose_among-some (first ∷ rest) next_index node e = rw (choose_among, e) refl

length-candidates_of :
    (protocol : String) (nodes : Assoc Node) → length (candidates_of protocol nodes) ≤ length nodes
unfolding candidates_of
length-candidates_of protocol [] = omega arith
length-candidates_of protocol ((id, node) ∷ nodes) =
    ground (arith, length-candidates_of protocol nodes)

-- Whatever the index, a node is chosen that stands in the directory and offers the protocol, and the
-- index moves on to the next turn, around the end; and every node that offers the protocol has a turn.
abbrev pub Turns : Directory → ℕ → Type 0
Turns d turns =
    (0 < turns)
    × (turns ≤ length d.nodes)
    × ((next_index : ℕ)
        → (node : Node) × (choose d next_index ≡ some (node, (next_index + 1) % turns))
          × IsIn node d.nodes
          × Offers "push" node)
    × ((node : Node)
        → IsIn node d.nodes
        → Offers "push" node
        → (turn : ℕ) × (turn < turns) × (choose d turn ≡ some (node, (turn + 1) % turns)))

choose-Turns :
    (d : Directory)
    → 0 < length (get_candidates d "push")
    → Turns d (length (get_candidates d "push"))
unfolding choose
choose-Turns d h =
    let candidates = get_candidates d "push" in
    (
      h,
      length-candidates_of "push" d.nodes,
      λ next_index. elim (Option-cases (get_elem? candidates (next_index % length candidates))) [
        | inl out ↦ absurd (get_elem?-some candidates _ (mod-lt next_index h) out)
        | inr (node, at) ↦
            let (there, offers) = candidates_of-Offers "push" d.nodes _ node at in
            (node, choose_among-some candidates next_index node at, there, offers)
      ],
      λ node there offers.
          let (idx, id, at) = there in
          let (turn, found) = Offers-candidates_of "push" d.nodes idx id node at offers in
          let below = get_elem?-lt candidates turn node found in
          let listed : get_elem? candidates (turn % length candidates) ≡ some node =
            ap (get_elem? candidates) (mod-eq_of_lt below) ∙ found in
          (turn, below, choose_among-some candidates turn node listed),
    )

choose_among-none : (next_index : ℕ) → choose_among [] next_index ≡ none
unfolding choose_among
choose_among-none next_index = refl

empty_or_positive : {A : Type 0} (xs : List A) → (xs ≡ []) ⊎ (0 < length xs)
empty_or_positive [] = inl refl
empty_or_positive (x ∷ xs) = inr (omega arith)

-- Either no node of the directory is available and offers the push protocol, and then none is chosen
-- at any index. Or there are at most as many turns as nodes: at any index a node is chosen that stands
-- in the directory, is available and offers the protocol, and the index moves on to the next turn,
-- around the end; and every such node has a turn.
pub choose-Chooses :
    (d : Directory)
    → (((next_index : ℕ) → choose d next_index ≡ none)
        × ((node : Node) → IsIn node d.nodes → Offers "push" node → ⊥))
      ⊎ ((turns : ℕ) × Turns d turns)
unfolding choose
choose-Chooses d = elim (empty_or_positive (get_candidates d "push")) [
  | inr some_there ↦ inr (length (get_candidates d "push"), choose-Turns d some_there)
  | inl nobody ↦ inl (
    λ next_index. ap (λ l. choose_among l next_index) nobody ∙ choose_among-none next_index,
    λ node there offers.
        let (idx, id, at) = there in
        let (turn, found) = Offers-candidates_of "push" d.nodes idx id node at offers in
        ground (arith, sym (ap (λ l. get_elem? l turn) nobody) ∙ found),
  )
]
