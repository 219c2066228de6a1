-- ===== src/NodeDirectory/Members.antt =====
-- Which nodes the directory holds after its operations.
use strij.Base.{
  ◌≡◌, refl, String, Bool, false, ◌||◌, [], ◌∷◌, none, some, arith, if◌then◌else◌, Assoc, lookup,
  contains, insert, erase, str_eq, eq_iff, eq_refl, lookup-insert, lookup-erase, contains-lookup,
}
use strij.NodeDirectory.{Node, Directory, put, resolve, move_origins, rekey_node}

module _ (less : String → String → Bool) where
  pub lookup-put :
      (k key : String) (node : Node) (nodes : Assoc Node)
      → lookup key (put less k node nodes) ≡ (if str_eq k key then some node else lookup key nodes)
  unfolding lookup put
  lookup-put k key node [] = refl
  lookup-put k key node ((i, other) ∷ nodes) =
      ground (arith, eq_iff k key, eq_iff i k, eq_iff i key, lookup-put k key node nodes)

  pub contains-put :
      (k key : String) (node : Node) (nodes : Assoc Node)
      → contains key (put less k node nodes) ≡ (str_eq k key || contains key nodes)
  contains-put k key node nodes = ground (
    arith,
    contains-lookup key (put less k node nodes),
    contains-lookup key nodes,
    lookup-put k key node nodes,
  )

  -- The ids of a node that is known and of one that is not differ.
  known_apart :
      (d : Directory) (from_id to_id : String) (node : Node)
      → lookup from_id d.nodes ≡ some node
      → contains to_id d.nodes ≡ false
      → str_eq from_id to_id ≡ false
  known_apart d from_id to_id node known free =
      ground (arith, eq_iff from_id to_id, contains-lookup from_id d.nodes, known, free)

  rekey_node-known :
      (d : Directory) (from_id to_id : String) (node : Node)
      → lookup from_id d.nodes ≡ some node
      → contains to_id d.nodes ≡ false
      → rekey_node less d from_id to_id ≡ record d {
        nodes = erase from_id (put less to_id (record node { node_id = to_id }) d.nodes);
        origin_to_canonical =
            insert from_id to_id (move_origins from_id to_id d.origin_to_canonical);
      }
  unfolding rekey_node
  rekey_node-known d from_id to_id node known free =
      rw (rekey_node, known_apart d from_id to_id node known free, known, free) refl

  -- Rekeying a known node to an id that is free moves it: it is found under the new id, which it
  -- bears, no longer under the old one, which from then on resolves to the new one, and all other
  -- nodes are found as before.
  pub rekey_node-moves :
      (d : Directory) (from_id to_id : String) (node : Node)
      → lookup from_id d.nodes ≡ some node
      → contains to_id d.nodes ≡ false
      → let d' = rekey_node less d from_id to_id in
        (lookup to_id d'.nodes ≡ some (record node { node_id = to_id }))
        × (lookup from_id d'.nodes ≡ none)
        × (resolve d' from_id ≡ to_id)
        × ((other : String)
            → str_eq from_id other ≡ false
            → str_eq to_id other ≡ false
            → lookup other d'.nodes ≡ lookup other d.nodes)
  rekey_node-moves d from_id to_id node known free =
      let apart = known_apart d from_id to_id node known free in
      let moved = record node { node_id = to_id } in
      rw (rekey_node-known d from_id to_id node known free) (
        ground (
          arith,
          apart,
          eq_refl to_id,
          lookup-erase from_id to_id (put less to_id moved d.nodes),
          lookup-put to_id to_id moved d.nodes,
        ),
        ground
            (arith, eq_refl from_id, lookup-erase from_id from_id (put less to_id moved d.nodes)),
        ground (
          arith,
          eq_refl from_id,
          lookup-insert from_id from_id to_id (move_origins from_id to_id d.origin_to_canonical),
        ),
        λ other not_from not_to. ground (
          arith,
          not_from,
          not_to,
          lookup-erase from_id other (put less to_id moved d.nodes),
          lookup-put to_id other moved d.nodes,
        ),
      )
