-- ===== src/Common/Client.antt =====
-- The Kubernetes client of controller-runtime, which is not part of the repository: its operations
-- on nodes over an unknown state of the cluster. A call may also change the state in other ways,
-- since the cluster goes on by itself.
pub mod Labelled
pub mod Loop
use accelerator_config_manag.Prelude.{String, ◌<>◌, List, [], ◌∷◌, Option, none, some, false}
use accelerator_config_manag.Prelude.GoMap.{GoMap}
use accelerator_config_manag.Api.Meta.{Node, Error, GoError, Fallible}

pub record NodeClient (S : Type 0) : Type 0 where
  -- `Get` of a node by its name.
  pub get_node : String → S → Fallible Node × S
  -- `List` of the nodes with `client.MatchingLabels`.
  pub list_nodes : GoMap String → S → Fallible (List Node) × S
  -- `Update`.
  pub update_node : Node → S → Error × S
  -- `Patch(ctx, node, client.MergeFrom(base))`: the base, and the node. On success the node is
  -- filled in from the answer.
  pub patch_node : Node → Node → S → Fallible Node × S
  -- `fmt.Errorf(text)` with no arguments: the text, unless there are percent signs in it.
  pub errorf : String → String

-- `strings.Join`
pub join : String → List String → String
join sep [] = ""
join sep (x ∷ []) = x
join sep (x ∷ y ∷ xs) = x <> (sep <> join sep (y ∷ xs))

-- `if len(errList) > 0 { return fmt.Errorf(strings.Join(errList, " ")) }; return nil`
unfoldable pub joined_error : (String → String) → List String → Error
unfolding join
joined_error errorf [] = none
joined_error errorf (x ∷ xs) =
    some (record { is_not_found = false; message = errorf (join " " (x ∷ xs)) })
