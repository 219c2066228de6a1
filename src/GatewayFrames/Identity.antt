-- ===== src/GatewayFrames/Identity.antt =====
-- The advertisement of a node, and the tasks that were sent to it under its earlier id.
use strij.Base.{
  List, [], ◌∷◌, ◌++◌, ap, Assoc, has_id, Option-cases, Bool-cases, inl, inr, ◌==◌, if◌then◌else◌,
  append-nil, ℕ, ◌≡◌, refl, ◌∙◌, String, Bool, false, Option, none, some, arith, lookup, contains,
  lookup-insert, eq_refl, str_eq, eq_iff, contains-lookup, Unique,
}
use strij.Capabilities.{NodeCapabilities}
use strij.Tlv.{Frame}
use strij.NodeDirectory.{Node, Directory, store_capabilities, rekey_node, resolve}
use strij.NodeDirectory.Members.{rekey_node-moves}
use strij.ResultStorage.{Delivery, get, notify_node_disconnected, tasks_of}
use strij.ResultStorage.Cleanup.{notify_node_disconnected-clears, errors_of, is_on, has_id-tasks_of}
use strij.ProbeGateway.{Connection, FrameStatus, frame_ok}
use strij.GatewayFrames.{
  Codec, Gateway, node_advertisement, update_node, owning_node, handle_advertisement, handle_frame,
}

-- What a receiver is given, in order.
abbrev pub told : ℕ → List (ℕ × Delivery) → List Delivery
told receiver [] = []
told receiver ((r, delivery) ∷ deliveries) =
    if r == receiver then delivery ∷ told receiver deliveries else told receiver deliveries

-- The task is the only one that has this receiver.
abbrev pub IsOwn : Assoc ℕ → ℕ → String → Type 0
IsOwn receivers receiver id = (other : String) → lookup other receivers ≡ some receiver → other ≡ id

told-append :
    (receiver : ℕ) (xs ys : List (ℕ × Delivery))
    → told receiver (xs ++ ys) ≡ told receiver xs ++ told receiver ys
told-append receiver [] ys = refl
told-append receiver ((r, delivery) ∷ xs) ys = ground (arith, told-append receiver xs ys)

told-errors_of :
    (receivers : Assoc ℕ) (receiver : ℕ) (id : String) (ids : List String)
    → IsOwn receivers receiver id
    → has_id id ids ≡ false
    → told receiver (errors_of receivers ids) ≡ []
told-errors_of receivers receiver id [] own out = refl
told-errors_of receivers receiver id (task_id ∷ ids) own out =
    let rest = told-errors_of receivers receiver id ids own (ground (arith, out)) in
    elim (Option-cases (lookup task_id receivers)) [
      | inl gone ↦ rw gone rest
      | inr (r, found) ↦ elim (Bool-cases (r == receiver)) [
        | inr other ↦ rw (found, other) rest
        | inl same ↦
            let this : task_id ≡ id = own task_id (found ∙ ap some (ground (arith, same))) in
            ground (arith, out, this, eq_iff task_id id, eq_iff id task_id)
      ]
    ]

module _ (less : String → String → Bool) (codec : Codec)
    (scheduler : Option (Gateway → Frame → Connection → Gateway × FrameStatus)) (g : Gateway)
    (frame : Frame) (conn : Connection) (owner : String) (node : Node)
    (capabilities : NodeCapabilities) (is_advertisement : frame.type_id ≡ node_advertisement)
    (parsed : codec.parse_capabilities frame.value ≡ some capabilities)
    (owned : conn.owner ≡ some owner) (known : lookup owner g.directory.nodes ≡ some node)
    (renamed : str_eq capabilities.node_id owner ≡ false) where
  abbrev pub stored : Directory
  stored = update_node g.directory owner (store_capabilities node capabilities)

  abbrev pub identified : Gateway
  identified = record g { directory = rekey_node less stored owner capabilities.node_id }

  handle_frame-identified : handle_frame less codec scheduler g frame conn ≡ (identified, frame_ok)
  unfolding handle_frame owning_node handle_advertisement
  handle_frame-identified =
      rw
        (
          handle_frame, is_advertisement, parsed, owning_node, owned, known, handle_advertisement,
          renamed,
        )
        refl

  -- A node that advertises another id than the one it is known by, and which no other node has, is
  -- from then on found under its own id, with its capabilities and its connection, and no longer
  -- under the old id, which resolves to the new one.
  pub advertisement-identifies :
      contains capabilities.node_id g.directory.nodes ≡ false
      → let d' = ((handle_frame less codec scheduler g frame conn).0).directory in
        (lookup capabilities.node_id d'.nodes
          ≡ some (record node { node_id = capabilities.node_id; capabilities = some capabilities }))
        × (lookup owner d'.nodes ≡ none)
        × (resolve d' owner ≡ capabilities.node_id)
  advertisement-identifies free =
      let there : lookup owner stored.nodes ≡ some (store_capabilities node capabilities) =
        rw
          (
            lookup-insert owner owner (store_capabilities node capabilities) g.directory.nodes,
            eq_refl owner,
          )
          refl in
      let still : contains capabilities.node_id stored.nodes ≡ false = ground (
        arith,
        free,
        renamed,
        eq_iff owner capabilities.node_id,
        eq_iff capabilities.node_id owner,
        contains-lookup capabilities.node_id g.directory.nodes,
        contains-lookup capabilities.node_id stored.nodes,
        lookup-insert owner capabilities.node_id (store_capabilities node capabilities)
            g.directory.nodes,
      ) in
      let moved =
        rekey_node-moves less stored owner capabilities.node_id
          (store_capabilities node capabilities) there still in
      rw (handle_frame-identified) (moved.0, moved.1, moved.2)

  -- A task that was sent to a node before its advertisement gave it another id keeps its receiver
  -- when the node goes away under its new id, and the receiver, if it is of this task alone, is told
  -- nothing.
  pub advertisement-orphans :
      (id : String) (receiver : ℕ)
      → lookup id g.storage.node_of_task ≡ some owner
      → get g.storage id ≡ some receiver
      → Unique g.storage.node_of_task
      → IsOwn g.storage.receivers receiver id
      → let g' = (handle_frame less codec scheduler g frame conn).0 in
        let after = notify_node_disconnected g'.storage capabilities.node_id in
        (get after id ≡ some receiver)
        × (told receiver after.deliveries ≡ told receiver g.storage.deliveries)
  advertisement-orphans id receiver sent waits u own =
      let new_id = capabilities.node_id in
      let cleared = notify_node_disconnected-clears g.storage new_id u in
      let gone = tasks_of new_id g.storage.node_of_task in
      let elsewhere : is_on new_id (lookup id g.storage.node_of_task) ≡ false =
        ground (arith, sent, renamed, eq_iff owner new_id, eq_iff new_id owner) in
      let out : has_id id gone ≡ false =
        has_id-tasks_of new_id id g.storage.node_of_task u ∙ elsewhere in
      let silent = told-errors_of g.storage.receivers receiver id gone own out in
      rw (handle_frame-identified) (
        (cleared.0 id).0 ∙ rw elsewhere waits,
        ap (told receiver) cleared.1
            ∙ told-append receiver g.storage.deliveries _
            ∙ ap (λ l. told receiver g.storage.deliveries ++ l) silent
            ∙ append-nil (told receiver g.storage.deliveries),
      )
