-- ===== src/Gpu/Nodes/Laws.antt =====
-- RevertMigNodes.
use accelerator_config_manag.Prelude.{
  String, Bool, true, false, ◌==◌, ◌&&◌, List, [], ◌∷◌, ◌≡◌, refl, ap, sym, arith, Bool-cases, inl,
  inr,
}
use accelerator_config_manag.Prelude.Dict.{Dict, insert, erase, lookup-erase_self}
use accelerator_config_manag.Prelude.GoMap.{nil_map, made, get}
use accelerator_config_manag.Prelude.Run.{ok}
use accelerator_config_manag.Prelude.Eff.{>>=-eq-ok}
use accelerator_config_manag.Api.Meta.{Node, Fallible, done, failed}
use accelerator_config_manag.Labels.{Labels, text_of}
use accelerator_config_manag.Common.Client.{NodeClient}
use accelerator_config_manag.Gpu.Names.{
  mig_config_label, mig_config_label_value_all_disabled, mig_config_state_label,
  mig_config_state_label_value_success, mig_manager_label_key,
}
use accelerator_config_manag.Gpu.Nodes.{
  disable_mig, patched_reverted, revert_mig_node, revert_mig_nodes,
}

-- The node, as it was read, is out of MIG mode.
unfoldable pub mig_disabled : Node → Bool
mig_disabled node =
    text_of (get mig_config_label node.labels) == mig_config_label_value_all_disabled
    && text_of (get mig_config_state_label node.labels) == mig_config_state_label_value_success

unfoldable pub all_mig_disabled : List Node → Bool
all_mig_disabled [] = true
all_mig_disabled (node ∷ nodes) = mig_disabled node && all_mig_disabled nodes

module _ {S : Type 0} (client : NodeClient S) where
  revert_mig_node-true :
      (node : Node) (s : S)
      → mig_disabled node ≡ true
      → revert_mig_node client node s ≡ (ok true, s)
  unfolding revert_mig_node mig_disabled
  revert_mig_node-true node s h = ground arith

  patched_reverted-false :
      (d : Dict String) (answer : Fallible Node)
      → patched_reverted (made (erase mig_config_state_label d)) answer ≡ false
  patched_reverted-false d (done n) = rw (lookup-erase_self mig_config_state_label d)
  patched_reverted-false d (failed e) = refl

  -- A node that has just been patched has lost its state label, so it does not count as reverted.
  revert_mig_node-patched :
      (name : String) (labels : Labels) (s : S) (b : Bool)
      → (text_of (get mig_config_label labels) == mig_config_label_value_all_disabled) ≡ false
      → (revert_mig_node client (record { name = name; labels = labels }) s).0 ≡ ok b
      → b ≡ false
  unfolding revert_mig_node disable_mig
  revert_mig_node-patched name nil_map s b h e = cc
  revert_mig_node-patched name (made d) s b h e =
      let e' = rw h at e in
      ground (
        arith,
        patched_reverted-false
            (insert mig_config_label mig_config_label_value_all_disabled
              (insert mig_manager_label_key "true" d))
            (client.patch_node (record { name = name; labels = made d })
              (record {
                name = name;
                labels = made (
                    erase mig_config_state_label (
                      insert mig_config_label mig_config_label_value_all_disabled
                        (insert mig_manager_label_key "true" d)));
              })
              s).0,
      )

  revert_mig_node_sound :
      (node : Node) (s : S) (b : Bool)
      → (revert_mig_node client node s).0 ≡ ok b
      → b ≡ mig_disabled node
  unfolding mig_disabled revert_mig_node
  revert_mig_node_sound node s b e =
      elim (Bool-cases
        (text_of (get mig_config_label node.labels) == mig_config_label_value_all_disabled)) [
          | inl h ↦ let e' = rw h at e in ground arith
          | inr h ↦ ground (arith, revert_mig_node-patched node.name node.labels s b h e)
        ]

  revert_mig_nodes_sound :
      (nodes : List Node) (s s' : S) (b : Bool)
      → revert_mig_nodes client nodes s ≡ (ok b, s')
      → b ≡ all_mig_disabled nodes
  unfolding revert_mig_nodes all_mig_disabled
  revert_mig_nodes_sound [] s s' b e = ground arith
  revert_mig_nodes_sound (node ∷ nodes) s s' b e =
      let (x, t, p, q) = >>=-eq-ok (revert_mig_node client node) _ s s' b e in
      let (y, u, p', q') = >>=-eq-ok (revert_mig_nodes client nodes) _ t s' b q in
      ground (
        arith,
        revert_mig_node_sound node s x (ap (λ z. z.0) p),
        revert_mig_nodes_sound nodes t u y p',
      )

  revert_mig_nodes-true :
      (nodes : List Node) (s : S)
      → all_mig_disabled nodes ≡ true
      → revert_mig_nodes client nodes s ≡ (ok true, s)
  unfolding revert_mig_nodes all_mig_disabled
  revert_mig_nodes-true [] s h = refl
  revert_mig_nodes-true (node ∷ nodes) s h =
      rw (revert_mig_node-true node s (ground arith), revert_mig_nodes-true nodes s (ground arith))
        refl

  -- RevertMigNodes returns true exactly when every node, as it was read, has MIG disabled with the
  -- state "success", and then it has written to no node.
  pub revert_mig_nodes_lem :
      (nodes : List Node) (s : S)
      → ((s' : S) → revert_mig_nodes client nodes s ≡ (ok true, s') → all_mig_disabled nodes ≡ true)
        × (all_mig_disabled nodes ≡ true → revert_mig_nodes client nodes s ≡ (ok true, s))
  revert_mig_nodes_lem nodes s =
      ((λ s' e. sym (revert_mig_nodes_sound nodes s s' true e)), revert_mig_nodes-true nodes s)
