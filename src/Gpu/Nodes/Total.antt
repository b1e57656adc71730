-- ===== src/Gpu/Nodes/Total.antt =====
-- The loops of the GPU controller do not panic on nodes that have labels, whatever the client answers.
use accelerator_config_manag.Prelude.{
  String, true, false, ◌==◌, none, some, List, [], ◌∷◌, ◌≡◌, refl, arith, Bool-cases, inl, inr,
  if◌then◌else◌,
}
use accelerator_config_manag.Prelude.Dict.{lookup}
use accelerator_config_manag.Prelude.GoMap.{nil_map, made, get, is_made, assign_made}
use accelerator_config_manag.Prelude.Run.{ok}
use accelerator_config_manag.Prelude.Eff.{Eff, lift, pure, ◌>>=◌, Ends, >>=-Ends, Anything}
use accelerator_config_manag.Api.Foreign.{Foreign}
use accelerator_config_manag.Api.Meta.{Node, Error}
use accelerator_config_manag.Labels.{Labels}
use accelerator_config_manag.Common.Client.{NodeClient}
use accelerator_config_manag.Common.Filter.Kept.{all, has_labels}
use accelerator_config_manag.Gpu.Names.{
  mode_managed_by_label, mig_config_label, mig_config_label_value_all_disabled,
}
use accelerator_config_manag.Gpu.Controls.{GpuModeManager, update_gpu_state_labels}
use accelerator_config_manag.Gpu.Controls.Adopted.{
  IsWorkload, adopted, adopted_flag, update_gpu_state_labels_parts,
}
use accelerator_config_manag.Gpu.Controls.Released.{remove_all_gpu_mode_labels_lem}
use accelerator_config_manag.Gpu.Status.{mode_status, status_or_new, update_gpu_node_policy_status}
use accelerator_config_manag.Labels.{text_of}
use accelerator_config_manag.Gpu.Nodes.{
  held_by_other, after_write, write_adopted, write_updated, reset_sync, adopt_node, adopt_loop,
  adopt_nodes, update_node, update_loop, update_nodes, release_node, release_loop, release_nodes,
  disable_mig, revert_mig_node, revert_mig_nodes,
}

module _ {F : Foreign} where
  -- A manager that newGpuModeManager could have made, whose policy has statuses.
  abbrev pub IsReady : GpuModeManager F → Type 0
  IsReady m = IsWorkload m.workload_config_name × (is_made m.instance_.status.nodes ≡ true)

  -- A manager that is ready, with anything else.
  abbrev pub ReadyWith : {S B : Type 0} → GpuModeManager F × B → S → Type 0
  ReadyWith (m, b) s = IsReady m

module _ {F : Foreign} {S : Type 0} (client : NodeClient S) where
  reset_sync-IsReady :
      (m : GpuModeManager F) (node : Node)
      → IsReady m
      → (m' : GpuModeManager F) × (reset_sync client m node ≡ ok m') × IsReady m'
  unfolding update_gpu_node_policy_status
  reset_sync-IsReady m node h =
      let (d, e) =
        assign_made node.name
          (mode_status m.instance_.spec.mode (some false) (some false)
            (status_or_new (get node.name m.instance_.status.nodes)))
          m.instance_.status.nodes h.1 in
      (
        record m { instance_ = record m.instance_ { status = record { nodes = made d } } },
        rw e refl,
        (h.0, refl),
      )

  after_write-Ends :
      (text : String) (m : GpuModeManager F) (node : Node) (err : Error) (s : S)
      → IsReady m
      → Ends ReadyWith (after_write client text m node err s)
  after_write-Ends text m node none s h =
      let (m', e, ready) = reset_sync-IsReady m node h in rw e ready
  after_write-Ends text m node (some e) s h = h

  -- The labels of a node, set.
  set_labels-Ends :
      (write : Labels → Eff S (GpuModeManager F × List String)) (m : GpuModeManager F) (g : Labels)
      (s : S)
      → IsReady m
      → is_made g ≡ true
      → ((labels : Labels) → Ends ReadyWith (write labels s))
      → Ends ReadyWith
          ((lift (update_gpu_state_labels m g) >>= λ c. if c.1 then write c.0 else pure (m, [])) s)
  set_labels-Ends write m nil_map s h l k = cc
  set_labels-Ends write m (made d) s h l k =
      rw (update_gpu_state_labels_parts m d h.0)
        (elim (Bool-cases (
          adopted_flag m.workload_config_name m.managed_by m.device_plugin_config_name
            m.mig_config_name d)) [
              | inl e ↦ rw e (
                  k (
                    made (
                      adopted m.workload_config_name m.managed_by m.device_plugin_config_name
                        m.mig_config_name d)))
              | inr e ↦ rw e h
            ])

  update_node-Ends :
      (m : GpuModeManager F) (node : Node) (s : S)
      → IsReady m
      → has_labels node ≡ true
      → Ends ReadyWith (update_node client m node s)
  unfolding update_node
  update_node-Ends m node s h l =
      set_labels-Ends (write_updated client m node) m node.labels s h l
        (λ labels. after_write-Ends _ m node _ _ h)

  adopt_node-Ends :
      (m : GpuModeManager F) (node : Node) (s : S)
      → IsReady m
      → has_labels node ≡ true
      → Ends ReadyWith (adopt_node client m node s)
  unfolding adopt_node
  adopt_node-Ends m node s h l =
      elim (Bool-cases (held_by_other m.managed_by (get mode_managed_by_label node.labels))) [
        | inl e ↦ rw e h
        | inr e ↦ rw e (
            set_labels-Ends (write_adopted client m node) m node.labels s h l
              (λ labels. after_write-Ends _ m node _ _ h))
      ]

  adopt_loop-Ends :
      (nodes : List Node) (m : GpuModeManager F) (s : S)
      → IsReady m
      → all has_labels nodes ≡ true
      → Ends ReadyWith (adopt_loop client m nodes s)
  unfolding adopt_loop
  adopt_loop-Ends [] m s h l = h
  adopt_loop-Ends (node ∷ nodes) m s h l =
      >>=-Ends ReadyWith ReadyWith (adopt_node client m node) _ s
        (adopt_node-Ends m node s h (ground arith))
        (λ c t h'.
          >>=-Ends ReadyWith ReadyWith (adopt_loop client c.0 nodes) _ t
            (adopt_loop-Ends nodes c.0 t h' (ground arith)) (λ c' t' h''. h''))

  update_loop-Ends :
      (nodes : List Node) (m : GpuModeManager F) (s : S)
      → IsReady m
      → all has_labels nodes ≡ true
      → Ends ReadyWith (update_loop client m nodes s)
  unfolding update_loop
  update_loop-Ends [] m s h l = h
  update_loop-Ends (node ∷ nodes) m s h l =
      >>=-Ends ReadyWith ReadyWith (update_node client m node) _ s
        (update_node-Ends m node s h (ground arith))
        (λ c t h'.
          >>=-Ends ReadyWith ReadyWith (update_loop client c.0 nodes) _ t
            (update_loop-Ends nodes c.0 t h' (ground arith)) (λ c' t' h''. h''))

  pub adopt_nodes-Ends :
      (nodes : List Node) (m : GpuModeManager F) (s : S)
      → IsReady m
      → all has_labels nodes ≡ true
      → Ends ReadyWith (adopt_nodes client m nodes s)
  unfolding adopt_nodes
  adopt_nodes-Ends nodes m s h l =
      >>=-Ends ReadyWith ReadyWith (adopt_loop client m nodes) _ s (adopt_loop-Ends nodes m s h l)
        (λ c t h'. h')

  pub update_nodes-Ends :
      (nodes : List Node) (m : GpuModeManager F) (s : S)
      → IsReady m
      → all has_labels nodes ≡ true
      → Ends ReadyWith (update_nodes client m nodes s)
  unfolding update_nodes
  update_nodes-Ends nodes m s h l =
      >>=-Ends ReadyWith ReadyWith (update_loop client m nodes) _ s (update_loop-Ends nodes m s h l)
        (λ c t h'. h')

module _ {S : Type 0} (client : NodeClient S) where
  release_node-Ends :
      (name : String) (labels : Labels) (s : S)
      → is_made labels ≡ true
      → Ends Anything (release_node client (record { name = name; labels = labels }) s)
  unfolding release_node
  release_node-Ends name nil_map s h = cc
  release_node-Ends name (made d) s h =
      let (d', modified, e, _, _) = remove_all_gpu_mode_labels_lem d in
      rw e (elim (Bool-cases modified) [ inl f ↦ rw f tt | inr f ↦ rw f tt ])

  release_loop-Ends :
      (nodes : List Node) (s : S)
      → all has_labels nodes ≡ true
      → Ends Anything (release_loop client nodes s)
  unfolding release_loop
  release_loop-Ends [] s h = tt
  release_loop-Ends (node ∷ nodes) s h =
      >>=-Ends Anything Anything (release_node client node) _ s
        (release_node-Ends node.name node.labels s (ground arith))
        (λ c t k.
          >>=-Ends Anything Anything (release_loop client nodes) _ t
            (release_loop-Ends nodes t (ground arith)) (λ c' t' k'. tt))

  pub release_nodes-Ends :
      (nodes : List Node) (s : S)
      → all has_labels nodes ≡ true
      → Ends Anything (release_nodes client nodes s)
  unfolding release_nodes
  release_nodes-Ends nodes s h =
      >>=-Ends Anything Anything (release_loop client nodes) _ s (release_loop-Ends nodes s h)
        (λ c t k. tt)

  revert_mig_node-Ends :
      (name : String) (labels : Labels) (s : S)
      → is_made labels ≡ true
      → Ends Anything (revert_mig_node client (record { name = name; labels = labels }) s)
  unfolding revert_mig_node disable_mig
  revert_mig_node-Ends name nil_map s h = cc
  revert_mig_node-Ends name (made d) s h =
      elim (Bool-cases
        (text_of (lookup mig_config_label d) == mig_config_label_value_all_disabled)) [
          | inl e ↦ rw e tt
          | inr e ↦ rw e tt
        ]

  pub revert_mig_nodes-Ends :
      (nodes : List Node) (s : S)
      → all has_labels nodes ≡ true
      → Ends Anything (revert_mig_nodes client nodes s)
  unfolding revert_mig_nodes
  revert_mig_nodes-Ends [] s h = tt
  revert_mig_nodes-Ends (node ∷ nodes) s h =
      >>=-Ends Anything Anything (revert_mig_node client node) _ s
        (revert_mig_node-Ends node.name node.labels s (ground arith))
        (λ c t k.
          >>=-Ends Anything Anything (revert_mig_nodes client nodes) _ t
            (revert_mig_nodes-Ends nodes t (ground arith)) (λ c' t' k'. tt))
