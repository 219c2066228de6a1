-- ===== src/NodeDirectory/Snapshots.antt =====
-- What a snapshot of node discovery makes of the directory.
use strij.Base.{
  has_id, ◌≡◌, refl, sym, subst, ◌∙◌, ap, String, Bool, true, false, ◌||◌, ◌&&◌, List, [], ◌∷◌,
  none, some, arith, Bool-cases, Option-cases, inl, inr, Assoc, lookup, contains, str_eq, eq_iff,
  contains-lookup,
}
use strij.NodeDirectory.{
  Node, NodeInfo, Directory, Outcome, connecting, done, put, resolve, present_ids, sweep, connect,
  add_node, reconnect_to, announce_one, announce, reconcile,
}
use strij.NodeDirectory.Members.{contains-put}

contains-sweep :
    (present : List String) (nodes : Assoc Node) (key : String)
    → contains key (sweep present nodes) ≡ (contains key nodes && has_id key present)
unfolding contains sweep
contains-sweep present [] key = refl
contains-sweep present ((k, node) ∷ nodes) key =
    ground (arith, eq_iff k key, contains-sweep present nodes key)

module _ (less : String → String → Bool) (valid : String → Bool) where
  abbrev pub AllValid : List NodeInfo → Type 0
  AllValid [] = Unit {0}
  AllValid (info ∷ infos) = (valid info.address ≡ true) × AllValid infos

  -- No announced id was rekeyed.
  abbrev pub Unrenamed : Assoc String → List NodeInfo → Type 0
  Unrenamed origins [] = Unit {0}
  Unrenamed origins (info ∷ infos) = (lookup info.node_id origins ≡ none) × Unrenamed origins infos

  abbrev pub announced : String → List NodeInfo → Bool
  announced key [] = false
  announced key (info ∷ infos) = str_eq info.node_id key || announced key infos

  -- What a round of the first loop adds to the ids.
  Adds : Directory → String → Outcome → Type 0
  Adds d node_id o =
      (d' : Directory) × (o ≡ done d')
      × (d'.origin_to_canonical ≡ d.origin_to_canonical)
      × ((key : String) → contains key d'.nodes ≡ (contains key d.nodes || str_eq node_id key))

  connect-Adds :
      (d : Directory) (node_id : String) (node : Node)
      → valid node.address ≡ true
      → Adds d node_id (connect less valid d node_id node)
  unfolding Adds
  connect-Adds d node_id node ok =
      let node' = record node { status = connecting } in
      (
        record d { nodes = put less node_id node' d.nodes },
        rw ok refl,
        refl,
        λ key. ground (arith, contains-put less node_id key node' d.nodes),
      )

  resolve_plain :
      (d : Directory) (node_id : String)
      → lookup node_id d.origin_to_canonical ≡ none
      → resolve d node_id ≡ node_id
  resolve_plain d node_id plain = ground (arith, plain)

  -- The three ways a round of the first loop goes.
  announce_one_missing :
      (d : Directory) (info : NodeInfo)
      → lookup (resolve d info.node_id) d.nodes ≡ none
      → announce_one less valid d info ≡ add_node less valid d info.node_id info.address
  unfolding announce_one
  announce_one_missing d info missing = rw (announce_one, missing) refl

  announce_one_same :
      (d : Directory) (info : NodeInfo) (node : Node)
      → lookup (resolve d info.node_id) d.nodes ≡ some node
      → str_eq node.address info.address ≡ true
      → announce_one less valid d info ≡ done d
  unfolding announce_one
  announce_one_same d info node known same = rw (announce_one, known, same) refl

  announce_one_moved :
      (d : Directory) (info : NodeInfo) (node : Node)
      → lookup (resolve d info.node_id) d.nodes ≡ some node
      → str_eq node.address info.address ≡ false
      → announce_one less valid d info
        ≡ reconnect_to less valid d (resolve d info.node_id) node info.address
  unfolding announce_one
  announce_one_moved d info node known moved = rw (announce_one, known, moved) refl

  announce_one-Adds :
      (d : Directory) (info : NodeInfo)
      → valid info.address ≡ true
      → lookup info.node_id d.origin_to_canonical ≡ none
      → Adds d info.node_id (announce_one less valid d info)
  unfolding Adds
  announce_one-Adds d info ok plain =
      let same_id = resolve_plain d info.node_id plain in
      elim (Option-cases (lookup info.node_id d.nodes)) [
        | inl missing ↦
            rw (announce_one_missing d info (ap (λ k. lookup k d.nodes) same_id ∙ missing))
              (unfold add_node in connect-Adds d info.node_id _ ok)
        | inr (node, known) ↦
            let found = ap (λ k. lookup k d.nodes) same_id ∙ known in
            elim (Bool-cases (str_eq node.address info.address)) [
              | inl same ↦ rw (announce_one_same d info node found same) (
                d,
                refl,
                refl,
                λ key.
                    ground
                      (arith, eq_iff info.node_id key, contains-lookup info.node_id d.nodes, known),
              )
              | inr other ↦
                  rw (announce_one_moved d info node found other, same_id)
                    (connect-Adds d info.node_id _ ok)
            ]
      ]

  announce-contains :
      (d : Directory) (infos : List NodeInfo)
      → AllValid infos
      → Unrenamed d.origin_to_canonical infos
      → (d' : Directory) × (announce less valid d infos ≡ done d')
        × ((key : String) → contains key d'.nodes ≡ (contains key d.nodes || announced key infos))
  unfolding announce Adds
  announce-contains d [] ok plain = (d, refl, λ key. ground arith)
  announce-contains d (info ∷ infos) ok plain =
      let (d1, first, same, ids) = announce_one-Adds d info ok.0 plain.0 in
      let (d2, rest, ids2) =
        announce-contains d1 infos ok.1 (subst (λ o. Unrenamed o infos) (sym same) plain.1) in
      (d2, rw (announce, first) rest, λ key. ground (arith, ids key, ids2 key))

  has_id-present :
      (d : Directory) (infos : List NodeInfo) (key : String)
      → Unrenamed d.origin_to_canonical infos
      → has_id key (present_ids d infos) ≡ announced key infos
  has_id-present d [] key plain = refl
  has_id-present d (info ∷ infos) key plain =
      ground (arith, resolve_plain d info.node_id plain.0, has_id-present d infos key plain.1)

  -- A snapshot whose addresses all parse, and in which no id was rekeyed before: afterwards the
  -- directory holds exactly the ids of the snapshot, whatever it held before.
  pub reconcile-ids :
      (d : Directory) (infos : List NodeInfo)
      → AllValid infos
      → Unrenamed d.origin_to_canonical infos
      → (d' : Directory) × (reconcile less valid d infos ≡ done d')
        × ((key : String) → contains key d'.nodes ≡ announced key infos)
  unfolding reconcile
  reconcile-ids d infos ok plain =
      let (d1, e, ids) = announce-contains d infos ok plain in
      (
        record d1 { nodes = sweep (present_ids d infos) d1.nodes },
        rw (reconcile, e) refl,
        λ key. ground (
          arith,
          contains-sweep (present_ids d infos) d1.nodes key,
          ids key,
          has_id-present d infos key plain,
        ),
      )

  -- A node that was rekeyed, left the directory, and is announced again under its old id: the
  -- call that meets it neither adds it under that id nor under its new one, and keeps the origin,
  -- so that every later call does the same.
  pub reconcile_forgets :
      (d : Directory) (info : NodeInfo) (canonical : String)
      → valid info.address ≡ true
      → lookup info.node_id d.origin_to_canonical ≡ some canonical
      → str_eq canonical info.node_id ≡ false
      → contains canonical d.nodes ≡ false
      → (d' : Directory) × (reconcile less valid d (info ∷ []) ≡ done d')
        × (contains info.node_id d'.nodes ≡ false)
        × (contains canonical d'.nodes ≡ false)
        × (d'.origin_to_canonical ≡ d.origin_to_canonical)
  unfolding reconcile announce
  reconcile_forgets d info canonical ok origin apart gone =
      let same_id : resolve d info.node_id ≡ canonical = ground (arith, origin) in
      let missing : lookup canonical d.nodes ≡ none =
        ground (arith, gone, contains-lookup canonical d.nodes) in
      let e = announce_one_missing d info (ap (λ k. lookup k d.nodes) same_id ∙ missing) in
      let fresh : Node = record {
        node_id = info.node_id;
        address = info.address;
        status = connecting;
        has_connection = false;
        capabilities = none;
        state = none;
      } in
      let d1 = record d { nodes = put less info.node_id fresh d.nodes } in
      let present = present_ids d (info ∷ []) in
      let added : announce less valid d (info ∷ []) ≡ done d1 =
        rw (announce, e) (unfold add_node in rw ok refl) in
      let left = contains-sweep present d1.nodes in
      (
        record d1 { nodes = sweep present d1.nodes },
        rw (reconcile, added) refl,
        ground (arith, left info.node_id, same_id, apart),
        ground (
          arith,
          left canonical,
          contains-put less info.node_id canonical fresh d.nodes,
          eq_iff info.node_id canonical,
          eq_iff canonical info.node_id,
          apart,
          gone,
        ),
        refl,
      )
