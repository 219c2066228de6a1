-- ===== src/ProbeGateway/Decline.antt =====
-- `handleTaskDeclineFrame`: a round is over when its last node declines.
use strij.Base.{
  ◌≡◌, ◌⊎◌, refl, sym, ap, subst, ◌∙◌, String, Bool, false, ◌||◌, List, [], ◌∷◌, ◌++◌, Option, none,
  some, arith, lookup, insert, erase, lookup-insert, lookup-erase, eq_refl, if◌then◌else◌, str_eq,
  inl, inr, Bool-cases, Option-cases,
}
use strij.Task.{capacity_refused}
use strij.ResultStorage.{error}
use strij.ProbeGateway.{Connection, PendingProbe, ProbeScheduler, others, handle_decline, without}

-- The connection is one of this node.
abbrev pub is_of : String → Option String → Bool
is_of node_id none = false
is_of node_id (some owner) = str_eq node_id owner

-- Whether the node is among the decliners of a list of connections and reasons.
abbrev pub has_declined : String → List (Connection × String) → Bool
has_declined node_id [] = false
has_declined node_id ((conn, reason) ∷ declines) =
    is_of node_id conn.owner || has_declined node_id declines

-- The nodes that are left of a round, in their order.
abbrev pub left_after : List (Connection × String) → List String → List String
left_after declines [] = []
left_after declines (id ∷ ids) =
    if has_declined id declines then left_after declines ids else id ∷ left_after declines ids

-- Declines of a task, one after the other, each on its connection and with its reason.
abbrev pub decline_all : ProbeScheduler → String → List (Connection × String) → ProbeScheduler
decline_all s id [] = s
decline_all s id ((conn, reason) ∷ declines) =
    decline_all (handle_decline s conn id reason (lookup id s.pending)) id declines

left_after-none : (ids : List String) → left_after [] ids ≡ ids
left_after-none [] = refl
left_after-none (id ∷ ids) = ap (λ l. id ∷ l) (left_after-none ids)

left_after-nobody :
    (conn : Connection) (reason : String) (declines : List (Connection × String))
    (ids : List String)
    → conn.owner ≡ none
    → left_after ((conn, reason) ∷ declines) ids ≡ left_after declines ids
left_after-nobody conn reason declines [] e = refl
left_after-nobody conn reason declines (id ∷ ids) e =
    ground (arith, e, left_after-nobody conn reason declines ids e)

left_after-others :
    (conn : Connection) (reason owner : String) (declines : List (Connection × String))
    (ids : List String)
    → conn.owner ≡ some owner
    → left_after declines (others owner ids) ≡ left_after ((conn, reason) ∷ declines) ids
left_after-others conn reason owner declines [] e = refl
left_after-others conn reason owner declines (id ∷ ids) e = elim (Bool-cases (str_eq id owner)) [
  | inl own ↦ ground (arith, e, own, left_after-others conn reason owner declines ids e)
  | inr other ↦ ground (arith, e, other, left_after-others conn reason owner declines ids e)
]

-- A decline and the later ones leave the same nodes as all of them together.
left_after-without :
    (conn : Connection) (reason : String) (declines : List (Connection × String))
    (ids : List String)
    → left_after declines (without conn.owner ids) ≡ left_after ((conn, reason) ∷ declines) ids
left_after-without conn reason declines ids = elim (Option-cases conn.owner) [
  | inl nobody ↦
      ap (λ o. left_after declines (without o ids)) nobody
      ∙ sym (left_after-nobody conn reason declines ids nobody)
  | inr (owner, owned) ↦
      ap (λ o. left_after declines (without o ids)) owned
      ∙ left_after-others conn reason owner declines ids owned
]

empty_or_cons :
    (ids : List String) → (ids ≡ []) ⊎ ((id : String) × (rest : List String) × (ids ≡ id ∷ rest))
empty_or_cons [] = inl refl
empty_or_cons (id ∷ ids) = inr (id, ids, refl)

module _ (id : String) where
  declined_last :
      (s : ProbeScheduler) (p : PendingProbe) (conn : Connection) (reason : String)
      → without conn.owner p.probed_node_ids ≡ []
      → let s' = handle_decline s conn id reason (some p) in
        (s'.pending ≡ erase id s.pending)
        × (s'.storage.deliveries
            ≡ s.storage.deliveries ++ (p.receiver, error reason capacity_refused) ∷ [])
  unfolding handle_decline
  declined_last s p conn reason e = (rw (handle_decline, e) refl, rw (handle_decline, e) refl)

  declined_more :
      (s : ProbeScheduler) (p : PendingProbe) (conn : Connection) (reason node_id : String)
      (ids : List String)
      → without conn.owner p.probed_node_ids ≡ node_id ∷ ids
      → handle_decline s conn id reason (some p)
        ≡ record s { pending = insert id (record p { probed_node_ids = node_id ∷ ids }) s.pending }
  unfolding handle_decline
  declined_more s p conn reason node_id ids e = rw (handle_decline, e) refl

  -- As long as a node is left, the round waits with those that are left, and nothing is delivered.
  decline_all-waits :
      (s : ProbeScheduler) (p : PendingProbe) (declines : List (Connection × String))
      (first : String) (rest : List String)
      → lookup id s.pending ≡ some p
      → left_after declines p.probed_node_ids ≡ first ∷ rest
      → (lookup id (decline_all s id declines).pending
          ≡ some (record p { probed_node_ids = first ∷ rest }))
        × ((decline_all s id declines).storage ≡ s.storage)
  decline_all-waits s p [] first rest opened left =
      let same : p.probed_node_ids ≡ first ∷ rest =
        sym (left_after-none p.probed_node_ids) ∙ left in
      (opened ∙ ap (λ l. some (record p { probed_node_ids = l })) same, refl)
  decline_all-waits s p ((conn, reason) ∷ declines) first rest opened left =
      elim (empty_or_cons (without conn.owner p.probed_node_ids)) [
        | inl nobody ↦
            let all_gone : left_after ((conn, reason) ∷ declines) p.probed_node_ids ≡ [] =
              sym (left_after-without conn reason declines p.probed_node_ids)
              ∙ ap (left_after declines) nobody in
            ground (arith, sym all_gone ∙ left)
        | inr (next, others_left, some_left) ↦
            let narrowed : PendingProbe = record p { probed_node_ids = next ∷ others_left } in
            let s' : ProbeScheduler = record s { pending = insert id narrowed s.pending } in
            let stepped : handle_decline s conn id reason (lookup id s.pending) ≡ s' =
              ap (handle_decline s conn id reason) opened
              ∙ declined_more s p conn reason next others_left some_left in
            let still : left_after declines (next ∷ others_left) ≡ first ∷ rest =
              ap (left_after declines) (sym some_left)
              ∙ left_after-without conn reason declines p.probed_node_ids
              ∙ left in
            subst
              (λ t.
                (lookup id (decline_all t id declines).pending
                  ≡ some (record p { probed_node_ids = first ∷ rest }))
                × ((decline_all t id declines).storage ≡ s.storage))
              (sym stepped)
              (decline_all-waits s' narrowed declines first rest
                (rw (lookup-insert id id narrowed s.pending, eq_refl id) refl) still)
      ]

  -- Declines of a round, from whatever connections, in whatever order and with whatever reasons, leave
  -- exactly the nodes that are not among the decliners: as long as there is one, the round waits with
  -- them and nothing is delivered. The decline after which none is left ends the round, and its receiver
  -- gets one error, with the reason of that decline.
  pub decline_all-resolves :
      (s : ProbeScheduler) (p : PendingProbe) (declines : List (Connection × String))
      (conn : Connection) (reason first : String) (rest : List String)
      → lookup id s.pending ≡ some p
      → left_after declines p.probed_node_ids ≡ first ∷ rest
      → left_after ((conn, reason) ∷ []) (first ∷ rest) ≡ []
      → let waiting = decline_all s id declines in
        let over = handle_decline waiting conn id reason (lookup id waiting.pending) in
        (lookup id waiting.pending ≡ some (record p { probed_node_ids = first ∷ rest }))
        × (waiting.storage ≡ s.storage)
        × (lookup id over.pending ≡ none)
        × (over.storage.deliveries
            ≡ s.storage.deliveries ++ (p.receiver, error reason capacity_refused) ∷ [])
  decline_all-resolves s p declines conn reason first rest opened left gone =
      let waiting = decline_all s id declines in
      let last : PendingProbe = record p { probed_node_ids = first ∷ rest } in
      let (waits, kept) = decline_all-waits s p declines first rest opened left in
      let nobody : without conn.owner (first ∷ rest) ≡ [] =
        sym (left_after-none (without conn.owner (first ∷ rest)))
        ∙ left_after-without conn reason [] (first ∷ rest)
        ∙ gone in
      let (erased, told) = declined_last waiting last conn reason nobody in
      (
        waits,
        kept,
        rw (waits, erased, lookup-erase id id waiting.pending, eq_refl id) refl,
        rw waits (
            told ∙ ap (λ t. t.deliveries ++ (p.receiver, error reason capacity_refused) ∷ []) kept),
      )
