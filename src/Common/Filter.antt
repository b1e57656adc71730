-- ===== src/Common/Filter.antt =====
-- FilterNodes, which gpunodepolicy_controller.go and npunodepolicy_controller.go write out alike.
pub mod Laws
pub mod Kept
use accelerator_config_manag.Prelude.{String, Bool, List, [], ◌∷◌, map, if◌then◌else◌}
use accelerator_config_manag.Prelude.Dict.{Dict, insert, erase, has}
use accelerator_config_manag.Api.Meta.{Node}

pub record Filtered : Type 0 where
  pub adopt : List Node
  pub match_ : List Node
  pub release : List Node

-- `claimNodeMap[claimNode.GetName()] = claimNode` for each claimed node.
unfoldable pub fill_claims : List Node → Dict Node → Dict Node
fill_claims [] claims = claims
fill_claims (node ∷ nodes) claims = fill_claims nodes (insert node.name node claims)

-- The loop over the matched nodes: those without an entry are released, the entries of the others
-- are deleted. What stays of the map comes back last.
unfoldable pub split_matches : Dict Node → List Node → List Node × List Node × Dict Node
split_matches claims [] = ([], [], claims)
split_matches claims (node ∷ nodes) =
    let claimed = has node.name claims in
    let (matched, released, rest) =
      split_matches (if claimed then erase node.name claims else claims) nodes in
    if claimed then (node ∷ matched, released, rest) else (matched, node ∷ released, rest)

-- Go's order of a `range` over the map of claims is not fixed: `visit` gives the order.
unfoldable pub filter_nodes : (Dict Node → Dict Node) → List Node → List Node → Filtered
unfolding fill_claims split_matches
filter_nodes visit claim_nodes match_nodes =
    let (matched, released, rest) = split_matches (fill_claims claim_nodes []) match_nodes in
    record { adopt = map (λ (_, node). node) (visit rest); match_ = matched; release = released }
