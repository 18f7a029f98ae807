-- ===== src/Tests/RosterTests.antt =====
-- A list of nodes with a repetition, sorted.
use arladkr_practicaladkr.Prelude.{◌≡◌, ◌↔◌, refl, List, [], ◌∷◌}
use arladkr_practicaladkr.Prelude.Int.{ℤ, pos, negsuc}
use arladkr_practicaladkr.Prelude.Members.{member}
use arladkr_practicaladkr.Prelude.Ascending.{Ascending}
use arladkr_practicaladkr.Roster.{
  insert, sorted_copy, unique_after, unique, sorted_unique, filter_from, filter_node_ids,
}
use arladkr_practicaladkr.Roster.Sorted.{sorted_unique_iff}

abbrev nodes : List ℤ
nodes = pos 3 ∷ pos 1 ∷ pos 3 ∷ negsuc 0 ∷ []

abbrev sorted_nodes : List ℤ
sorted_nodes = negsuc 0 ∷ pos 1 ∷ pos 3 ∷ []

nodes_sorted : sorted_unique nodes ≡ sorted_nodes
unfolding sorted_unique unique unique_after sorted_copy insert
nodes_sorted = refl

nodes_filtered : filter_node_ids nodes (pos 3 ∷ pos 4 ∷ []) ≡ pos 3 ∷ []
unfolding filter_node_ids filter_from member sorted_unique unique unique_after sorted_copy insert
nodes_filtered = refl

sorted_unique_iff_example :
    (sorted_unique nodes ≡ sorted_nodes)
    ↔ (Ascending sorted_nodes × ((a : ℤ) → member a sorted_nodes ≡ member a nodes))
sorted_unique_iff_example = sorted_unique_iff nodes sorted_nodes
