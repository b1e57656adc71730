-- ===== src/Gpu/Nodes/Kept.antt =====
-- What a patch of a node keeps is kept by the loops of ReleaseNodes and RevertMigNodes.
use accelerator_config_manag.Prelude.{List, [], ◌∷◌, ◌==◌}
use accelerator_config_manag.Prelude.GoMap.{get}
use accelerator_config_manag.Prelude.Eff.{pure, lift, Keeps, >>=-Keeps, if-Keeps}
use accelerator_config_manag.Api.Meta.{Node}
use accelerator_config_manag.Labels.{text_of}
use accelerator_config_manag.Common.Client.{NodeClient}
use accelerator_config_manag.Gpu.Names.{mig_config_label, mig_config_label_value_all_disabled}
use accelerator_config_manag.Gpu.Controls.{remove_all_gpu_mode_labels}
use accelerator_config_manag.Gpu.Nodes.{
  is_reverted, disable_mig, write_released, release_node, release_loop, release_nodes,
  revert_mig_node, revert_mig_nodes,
}

module _ {S : Type 0} (client : NodeClient S) (I : S → Type 0)
    (patched : (base node : Node) (s : S) → I s → I (client.patch_node base node s).1) where
  release_node-Keeps : (node : Node) → Keeps I (release_node client node)
  unfolding release_node
  release_node-Keeps node =
      >>=-Keeps I (lift (remove_all_gpu_mode_labels node.labels)) _ (λ s i. i)
        (λ c.
          if-Keeps I c.1 (write_released client node c.0) (pure [])
            (λ s i. patched node (record node { labels = c.0 }) s i) (λ s i. i))

  release_loop-Keeps : (nodes : List Node) → Keeps I (release_loop client nodes)
  unfolding release_loop
  release_loop-Keeps [] s i = i
  release_loop-Keeps (node ∷ nodes) s i =
      >>=-Keeps I (release_node client node) _ (release_node-Keeps node)
        (λ errs.
          >>=-Keeps I (release_loop client nodes) _ (release_loop-Keeps nodes) (λ rest s' i'. i'))
        s i

  pub release_nodes-Keeps : (nodes : List Node) → Keeps I (release_nodes client nodes)
  unfolding release_nodes
  release_nodes-Keeps nodes =
      >>=-Keeps I (release_loop client nodes) _ (release_loop-Keeps nodes) (λ errs s i. i)

  revert_mig_node-Keeps : (node : Node) → Keeps I (revert_mig_node client node)
  unfolding revert_mig_node
  revert_mig_node-Keeps node =
      if-Keeps I (text_of (get mig_config_label node.labels) == mig_config_label_value_all_disabled)
        (pure (is_reverted node.labels)) _ (λ s i. i)
        (>>=-Keeps I (lift (disable_mig node.labels)) _ (λ s i. i)
          (λ labels s i. patched node (record node { labels = labels }) s i))

  pub revert_mig_nodes-Keeps : (nodes : List Node) → Keeps I (revert_mig_nodes client nodes)
  unfolding revert_mig_nodes
  revert_mig_nodes-Keeps [] s i = i
  revert_mig_nodes-Keeps (node ∷ nodes) s i =
      >>=-Keeps I (revert_mig_node client node) _ (revert_mig_node-Keeps node)
        (λ reverted.
          >>=-Keeps I (revert_mig_nodes client nodes) _ (revert_mig_nodes-Keeps nodes)
            (λ rest s' i'. i'))
        s i
