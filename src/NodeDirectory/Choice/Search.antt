-- ===== src/NodeDirectory/Choice/Search.antt =====
-- `GetNextNode` against a search in cyclic order.
use strij.Base.{
  ℕ, zero, suc, ◌+◌, ◌-◌, ◌%◌, ◌<◌, ◌≤◌, ◌≡◌, ◌⊎◌, refl, sym, ap, ◌∙◌, subst, String, true, false,
  List, [], ◌∷◌, Option, none, some, arith, ltb, Bool-cases, Option-cases, inl, inr, length,
  get_elem?,
}
use native.Mathlib.Nat.{mod-lt, mod-add-mod, mod-eq_of_lt, mod-eq-sub-mod}
use strij.NodeDirectory.{Node, Directory, is_available}
use strij.NodeDirectory.Choice.{next_from, get_next_node}

-- The position that is `i` places behind the index, around the end.
abbrev pub position : Directory → ℕ → ℕ
position d i = (d.next_node_index + i) % length d.nodes

-- The node at a position of the directory is not available, if there is one.
abbrev pub BusyAt : Directory → ℕ → Type 0
BusyAt d idx =
    (id : String) (node : Node)
    → get_elem? d.nodes idx ≡ some (id, node)
    → is_available node ≡ false

-- The first available node, from `i` places behind the index on.
abbrev pub FoundFrom : ℕ → Directory → Option (Node × Directory) → Type 0
FoundFrom i d r =
    (k : ℕ) × (id : String) × (node : Node) × (i ≤ k)
    × (k < length d.nodes)
    × (get_elem? d.nodes (position d k) ≡ some (id, node))
    × (is_available node ≡ true)
    × ((j : ℕ) → i ≤ j → j < k → BusyAt d (position d j))
    × (r ≡ some (node, record d { next_node_index = (position d k + 1) % length d.nodes }))

pub get_elem?-some : {A : Type 0} (xs : List A) (i : ℕ) → i < length xs → get_elem? xs i ≡ none → ⊥
get_elem?-some [] i h e = omega (arith, h)
get_elem?-some (x ∷ xs) zero h e = ground (arith, e)
get_elem?-some (x ∷ xs) (suc i) h e = get_elem?-some xs i (omega (arith, h)) e

next_from_hit :
    (left i : ℕ) (d : Directory) (id : String) (node : Node)
    → get_elem? d.nodes (position d i) ≡ some (id, node)
    → is_available node ≡ true
    → next_from (suc left) i d
      ≡ some (node, record d { next_node_index = (position d i + 1) % length d.nodes })
unfolding next_from
next_from_hit left i d id node here available = rw (next_from, here, available) refl

next_from_skip :
    (left i : ℕ) (d : Directory) (id : String) (node : Node)
    → get_elem? d.nodes (position d i) ≡ some (id, node)
    → is_available node ≡ false
    → next_from (suc left) i d ≡ next_from left (suc i) d
unfolding next_from
next_from_skip left i d id node here busy = rw (next_from, here, busy) refl

-- A busy place in front of a range of busy places.
busy_before :
    (d : Directory) (i : ℕ) (Ahead : ℕ → Type 0)
    → BusyAt d (position d i)
    → ((j : ℕ) → suc i ≤ j → Ahead j → BusyAt d (position d j))
    → (j : ℕ) → i ≤ j
    → Ahead j
    → BusyAt d (position d j)
busy_before d i Ahead here rest j h below = elim (Bool-cases (ltb i j)) [
  | inl later ↦ rest j (ground (arith, later)) below
  | inr first ↦
      let same : i ≡ j = ground (arith, first, h) in subst (λ k. BusyAt d (position d k)) same here
]

next_from-found :
    (left i : ℕ) (d : Directory)
    → left + i ≡ length d.nodes
    → ((next_from left i d ≡ none)
        × ((j : ℕ) → i ≤ j → j < length d.nodes → BusyAt d (position d j)))
      ⊎ FoundFrom i d (next_from left i d)
unfolding next_from
next_from-found zero i d e = inl (refl, λ j h below. absurd (omega (arith, e, h, below)))
next_from-found (suc left) i d e = elim (Option-cases (get_elem? d.nodes (position d i))) [
  | inl out ↦ absurd (
      get_elem?-some d.nodes (position d i) (mod-lt (d.next_node_index + i) (omega (arith, e))) out)
  | inr ((id, node), here) ↦ elim (Bool-cases (is_available node)) [
    | inl available ↦ inr (
      i,
      id,
      node,
      omega arith,
      omega (arith, e),
      here,
      available,
      λ j h below. absurd (omega (arith, h, below)),
      next_from_hit left i d id node here available,
    )
    | inr busy ↦
        let skip = next_from_skip left i d id node here busy in
        let at_first : BusyAt d (position d i) =
          λ id' node' there. ground (arith, sym here ∙ there, busy) in
        elim (next_from-found left (suc i) d (omega (arith, e))) [
          | inl (nothing, rest) ↦
              inl (skip ∙ nothing, busy_before d i (λ j. j < length d.nodes) at_first rest)
          | inr (k, id', node', h, below, there, available, rest, result) ↦ inr (
            k,
            id',
            node',
            omega (arith, h),
            below,
            there,
            available,
            busy_before d i (λ j. j < k) at_first rest,
            skip ∙ result,
          )
        ]
  ]
]

-- Every place of the directory is a position.
position-all :
    (d : Directory) (idx : ℕ)
    → idx < length d.nodes
    → (i : ℕ) × (i < length d.nodes) × (position d i ≡ idx)
position-all d idx h =
    let n = length d.nodes in
    let start = d.next_node_index % n in
    let inside : start < n = mod-lt d.next_node_index (omega (arith, h)) in
    elim (Bool-cases (ltb idx start)) [
      | inr ahead ↦
          let reach : start + (idx - start) ≡ idx = ground (arith, ahead) in
          (
            idx - start,
            omega (arith, h),
            sym (mod-add-mod d.next_node_index n (idx - start))
                ∙ ap (λ k. k % n) reach
                ∙ mod-eq_of_lt h,
          )
      | inl behind ↦
          let i = n + idx - start in
          let reach : start + i ≡ n + idx = ground (arith, behind, inside) in
          let back : n + idx - n ≡ idx = omega arith in
          (
            i,
            ground (arith, behind, inside),
            sym (mod-add-mod d.next_node_index n i)
                ∙ ap (λ k. k % n) reach
                ∙ mod-eq-sub-mod (omega arith)
                ∙ ap (λ k. k % n) back
                ∙ mod-eq_of_lt h,
          )
    ]

pub get_elem?-lt :
    {A : Type 0} (xs : List A) (i : ℕ) (x : A) → get_elem? xs i ≡ some x → i < length xs
get_elem?-lt [] i x e = ground (arith, e)
get_elem?-lt (y ∷ xs) zero x e = omega arith
get_elem?-lt (y ∷ xs) (suc i) x e = omega (arith, get_elem?-lt xs i x e)

-- `GetNextNode` returns no node exactly if no node of the directory is available. Otherwise it returns
-- the first available node in cyclic order from its index on, and the next search starts behind that
-- node, over the same nodes.
pub get_next_node-finds :
    (d : Directory)
    → ((get_next_node d ≡ none) × ((idx : ℕ) → BusyAt d idx)) ⊎ FoundFrom 0 d (get_next_node d)
unfolding get_next_node
get_next_node-finds d = elim (next_from-found (length d.nodes) 0 d (omega arith)) [
  | inr found ↦ inr found
  | inl (nothing, busy) ↦ inl (
    nothing,
    λ idx id node there.
        let (i, below, same) = position-all d idx (get_elem?-lt d.nodes idx (id, node) there) in
        busy i (omega arith) below id node (ap (λ k. get_elem? d.nodes k) same ∙ there),
  )
]
