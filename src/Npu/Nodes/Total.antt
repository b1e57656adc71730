-- ===== src/Npu/Nodes/Total.antt =====
-- The loops of the NPU controller do not panic on nodes that have labels, whatever the client answers.
use accelerator_config_manag.Prelude.{
  String, true, none, some, List, [], ◌∷◌, ◌≡◌, refl, arith, Bool-cases, inl, inr, if◌then◌else◌,
}
use accelerator_config_manag.Prelude.GoMap.{nil_map, made, get, is_made, assign_made}
use accelerator_config_manag.Prelude.Run.{ok}
use accelerator_config_manag.Prelude.Eff.{Eff, lift, pure, ◌>>=◌, Ends, >>=-Ends, Anything}
use accelerator_config_manag.Api.Meta.{Node, Error}
use accelerator_config_manag.Api.Npu.SyncStatus
use accelerator_config_manag.Labels.{Labels}
use accelerator_config_manag.Common.Client.{NodeClient}
use accelerator_config_manag.Common.Filter.Kept.{all, has_labels}
use accelerator_config_manag.Npu.Names.{npu_mode_managed_by_label}
use accelerator_config_manag.Npu.Controls.{
  NpuModeManager, update_npu_state_labels, remove_all_npu_mode_labels,
}
use accelerator_config_manag.Npu.Controls.Adopted.{
  adopted, adopted_flag, update_npu_state_labels_parts,
}
use accelerator_config_manag.Npu.Status.{sync_status, status_or_new, update_npu_node_policy_status}
use accelerator_config_manag.Npu.Nodes.{
  held_by_other, after_write, write_adopted, write_updated, is_restored, mark_initialized,
  adopt_node, adopt_loop, adopt_nodes, update_node, update_loop, update_nodes, release_node,
  release_loop, release_nodes,
}

-- A manager whose policy has statuses.
abbrev pub IsReady : NpuModeManager → Type 0
IsReady m = is_made m.instance_.status.nodes ≡ true

-- A manager that is ready, with anything else.
abbrev pub ReadyWith : {S B : Type 0} → NpuModeManager × B → S → Type 0
ReadyWith (m, b) s = IsReady m

module _ {S : Type 0} (client : NodeClient S) where
  mark_initialized-IsReady :
      (m : NpuModeManager) (node : Node)
      → IsReady m
      → (m' : NpuModeManager) × (mark_initialized m node ≡ ok m') × IsReady m'
  unfolding update_npu_node_policy_status
  mark_initialized-IsReady m node h =
      let (d, e) =
        assign_made node.name
          (sync_status SyncStatus.initialized true
            (status_or_new (get node.name m.instance_.status.nodes)))
          m.instance_.status.nodes h in
      (
        record m { instance_ = record m.instance_ { status = record { nodes = made d } } },
        rw e refl,
        refl,
      )

  after_write-Ends :
      (text : String) (m : NpuModeManager) (node : Node) (err : Error) (s : S)
      → IsReady m
      → Ends ReadyWith (after_write client text m node err s)
  after_write-Ends text m node none s h =
      let (m', e, ready) = mark_initialized-IsReady m node h in rw e ready
  after_write-Ends text m node (some e) s h = h

  -- The labels of a node, set.
  set_labels-Ends :
      (write : Labels → Eff S (NpuModeManager × List String)) (m : NpuModeManager) (g : Labels)
      (s : S)
      → IsReady m
      → is_made g ≡ true
      → ((labels : Labels) → Ends ReadyWith (write labels s))
      → Ends ReadyWith
          ((lift (update_npu_state_labels m g) >>= λ c. if c.1 then write c.0 else pure (m, [])) s)
  set_labels-Ends write m nil_map s h l k = cc
  set_labels-Ends write m (made d) s h l k =
      rw (update_npu_state_labels_parts m d)
        (elim (Bool-cases (adopted_flag m.mode m.managed_by d)) [
          | inl e ↦ rw e (k (made (adopted m.mode m.managed_by d)))
          | inr e ↦ rw e h
        ])

  update_node-Ends :
      (m : NpuModeManager) (node : Node) (s : S)
      → IsReady m
      → has_labels node ≡ true
      → Ends ReadyWith (update_node client m node s)
  unfolding update_node
  update_node-Ends m node s h l =
      set_labels-Ends (write_updated client m node) m node.labels s h l
        (λ labels. after_write-Ends _ m node _ _ h)

  adopt_node-Ends :
      (m : NpuModeManager) (node : Node) (s : S)
      → IsReady m
      → has_labels node ≡ true
      → Ends ReadyWith (adopt_node client m node s)
  unfolding adopt_node
  adopt_node-Ends m node s h l =
      elim (Bool-cases (held_by_other m.managed_by (get npu_mode_managed_by_label node.labels))) [
        | inl e ↦ rw e h
        | inr e ↦ rw e (
            set_labels-Ends (write_adopted client m node) m node.labels s h l
              (λ labels. after_write-Ends _ m node _ _ h))
      ]

  adopt_loop-Ends :
      (nodes : List Node) (m : NpuModeManager) (s : S)
      → IsReady m
      → all has_labels nodes ≡ true
      → Ends ReadyWith (adopt_loop client m nodes s)
  unfolding adopt_loop
  adopt_loop-Ends [] m s h l = h
  adopt_loop-Ends (node ∷ nodes) m s h l =
      >>=-Ends ReadyWith ReadyWith (adopt_node client m node) _ s
        (adopt_node-Ends m node s h (ground arith))
        (λ c t h'.
          >>=-Ends ReadyWith ReadyWith (adopt_loop client c.0 nodes) _ t
            (adopt_loop-Ends nodes c.0 t h' (ground arith)) (λ c' t' h''. h''))

  update_loop-Ends :
      (nodes : List Node) (m : NpuModeManager) (s : S)
      → IsReady m
      → all has_labels nodes ≡ true
      → Ends ReadyWith (update_loop client m nodes s)
  unfolding update_loop
  update_loop-Ends [] m s h l = h
  update_loop-Ends (node ∷ nodes) m s h l =
      >>=-Ends ReadyWith ReadyWith (update_node client m node) _ s
        (update_node-Ends m node s h (ground arith))
        (λ c t h'.
          >>=-Ends ReadyWith ReadyWith (update_loop client c.0 nodes) _ t
            (update_loop-Ends nodes c.0 t h' (ground arith)) (λ c' t' h''. h''))

  pub adopt_nodes-Ends :
      (nodes : List Node) (m : NpuModeManager) (s : S)
      → IsReady m
      → all has_labels nodes ≡ true
      → Ends ReadyWith (adopt_nodes client m nodes s)
  unfolding adopt_nodes
  adopt_nodes-Ends nodes m s h l =
      >>=-Ends ReadyWith ReadyWith (adopt_loop client m nodes) _ s (adopt_loop-Ends nodes m s h l)
        (λ c t h'. h')

  pub update_nodes-Ends :
      (nodes : List Node) (m : NpuModeManager) (s : S)
      → IsReady m
      → all has_labels nodes ≡ true
      → Ends ReadyWith (update_nodes client m nodes s)
  unfolding update_nodes
  update_nodes-Ends nodes m s h l =
      >>=-Ends ReadyWith ReadyWith (update_loop client m nodes) _ s (update_loop-Ends nodes m s h l)
        (λ c t h'. h')

  release_node-Ends : (node : Node) (s : S) → Ends Anything (release_node client node s)
  unfolding release_node
  release_node-Ends node s = elim (Bool-cases (is_restored node)) [
    | inl e ↦ rw e tt
    | inr e ↦ elim (Bool-cases (remove_all_npu_mode_labels node.labels).1) [
      | inl f ↦ rw (e, f) tt
      | inr f ↦ rw (e, f) tt
    ]
  ]

  release_loop-Ends : (nodes : List Node) (s : S) → Ends Anything (release_loop client nodes s)
  unfolding release_loop
  release_loop-Ends [] s = tt
  release_loop-Ends (node ∷ nodes) s =
      >>=-Ends Anything Anything (release_node client node) _ s (release_node-Ends node s) (λ c t h.
        >>=-Ends Anything Anything (release_loop client nodes) _ t (release_loop-Ends nodes t)
          (λ c' t' h'. tt))

  -- ReleaseNodes deletes labels only, which is safe on nil too.
  pub release_nodes-Ends :
      (nodes : List Node) (s : S) → Ends Anything (release_nodes client nodes s)
  unfolding release_nodes
  release_nodes-Ends nodes s =
      >>=-Ends Anything Anything (release_loop client nodes) _ s (release_loop-Ends nodes s)
        (λ c t h. tt)
