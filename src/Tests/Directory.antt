-- ===== src/Tests/Directory.antt =====
-- The theorems of NodeDirectory at a directory with two nodes.
use strij.Base.{
  ℕ, ◌≡◌, ◌⊎◌, refl, String, Bool, true, false, List, [], ◌∷◌, none, some, lookup, contains, str_eq,
}
use strij.NodeDirectory.{Node, NodeInfo, connected, Directory, done, resolve, rekey_node, reconcile}
use strij.NodeDirectory.Choice.{get_next_node, choose}
use strij.NodeDirectory.Choice.Search.{BusyAt, FoundFrom, get_next_node-finds}
use strij.NodeDirectory.Choice.Turns.{IsIn, Offers, Turns, choose-Chooses}
use strij.NodeDirectory.Members.{rekey_node-moves}
use strij.NodeDirectory.Snapshots.{announced, reconcile-ids, reconcile_forgets}

-- An order and a test of addresses, for the parameters.
abbrev less : String → String → Bool
less a b = false

abbrev valid : String → Bool
valid address = true

abbrev ready : Node
ready = record {
  node_id = "n1";
  address = "10.0.0.1:7";
  status = connected;
  has_connection = true;
  capabilities = some (record {
    node_id = "n1";
    pools = [];
    reservations = [];
    handlers = [];
    scheduling_protocols = "push" ∷ [];
  });
  state = none;
}

abbrev directory : Directory
directory = record { nodes = ("n1", ready) ∷ []; origin_to_canonical = []; next_node_index = 0 }

abbrev snapshot : List NodeInfo
snapshot = record { node_id = "n2"; address = "10.0.0.2:7" } ∷ []

rekey_node-moves_example :
    let d' = rekey_node less directory "n1" "n9" in
    (lookup "n9" d'.nodes ≡ some (record ready { node_id = "n9" }))
    × (lookup "n1" d'.nodes ≡ none)
    × (resolve d' "n1" ≡ "n9")
    × ((other : String)
        → str_eq "n1" other ≡ false
        → str_eq "n9" other ≡ false
        → lookup other d'.nodes ≡ lookup other directory.nodes)
unfolding lookup contains
rekey_node-moves_example = rekey_node-moves less directory "n1" "n9" ready refl refl

reconcile-ids_example :
    (d' : Directory) × (reconcile less valid directory snapshot ≡ done d')
    × ((key : String) → contains key d'.nodes ≡ announced less valid key snapshot)
unfolding lookup
reconcile-ids_example = reconcile-ids less valid directory snapshot (refl, tt) (refl, tt)

abbrev renamed : Directory
renamed = record directory { origin_to_canonical = ("n2", "n7") ∷ [] }

reconcile_forgets_example :
    (d' : Directory) × (reconcile less valid renamed snapshot ≡ done d')
    × (contains "n2" d'.nodes ≡ false)
    × (contains "n7" d'.nodes ≡ false)
    × (d'.origin_to_canonical ≡ renamed.origin_to_canonical)
unfolding lookup contains
reconcile_forgets_example =
    reconcile_forgets less valid renamed (record { node_id = "n2"; address = "10.0.0.2:7" }) "n7"
      refl refl refl refl

get_next_node-finds_example :
    ((get_next_node directory ≡ none) × ((idx : ℕ) → BusyAt directory idx))
    ⊎ FoundFrom 0 directory (get_next_node directory)
get_next_node-finds_example = get_next_node-finds directory

choose-Chooses_example :
    (((next_index : ℕ) → choose directory next_index ≡ none)
      × ((node : Node) → IsIn node directory.nodes → Offers "push" node → ⊥))
    ⊎ ((turns : ℕ) × Turns directory turns)
choose-Chooses_example = choose-Chooses directory
