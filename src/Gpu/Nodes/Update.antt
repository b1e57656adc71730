-- ===== src/Gpu/Nodes/Update.antt =====
-- UpdateNodes gives all its nodes the labels of the policy on the API server, or returns an error.
use accelerator_config_manag.Prelude.{
  String, false, Option, none, some, List, [], ◌∷◌, ◌≡◌, refl, sym, ap, ◌∙◌, Bool-cases, inl, inr,
}
use mathlib.Core.Path.{fun_ext, subst}
use accelerator_config_manag.Prelude.GoMap.{GoMap, nil_map, made}
use accelerator_config_manag.Prelude.Run.{Run, ok, ok-injective, panic}
use accelerator_config_manag.Prelude.Run
use accelerator_config_manag.Prelude.Eff.{lift, >>=-eq-ok}
use accelerator_config_manag.Api.Foreign.{Foreign}
use accelerator_config_manag.Api.Meta.{Node, Error, Fallible-cases}
use accelerator_config_manag.Api.Gpu.{GpuNodePolicy}
use accelerator_config_manag.Labels.{Labels}
use accelerator_config_manag.Common.Client.{NodeClient}
use accelerator_config_manag.Common.Client.Labelled.{
  IsLabelled, IsFresh, AllFresh, AllHave, OthersKept, OnlyChanged,
}
use accelerator_config_manag.Common.Client.Loop.{
  each, each-changed, joined_error-none, patch-changed, settled-changed,
}
use accelerator_config_manag.Common.Filter.Laws.{UniqueNames}
use accelerator_config_manag.Gpu.Controls.{GpuModeManager}
use accelerator_config_manag.Gpu.Controls.Adopted.{IsWorkload, desired_gpu_label}
use accelerator_config_manag.Gpu.Controls.Update.{
  wanted, update_gpu_state_labels_lem, update_gpu_state_labels_nil,
}
use accelerator_config_manag.Gpu.Status.{update_gpu_node_policy_status}
use accelerator_config_manag.Gpu.Nodes.{
  after_write, error_of, reset_sync, update_node, update_loop, update_nodes,
}

-- What the labels of a node depend on.
abbrev pub settings : {F : Foreign} → GpuModeManager F → String × String × String × String
settings m = (m.workload_config_name, m.managed_by, m.device_plugin_config_name, m.mig_config_name)

abbrev desired_of : String × String × String × String → String → Option String → Option String
desired_of (workload, managed_by, device_plugin, mig) =
    desired_gpu_label workload managed_by device_plugin mig

module _ {F : Foreign} (m p : GpuModeManager F) where
  reset_kept :
      (r : Run (GpuNodePolicy F))
      → Run.◌>>=◌ r (λ policy. ok (record m { instance_ = policy })) ≡ ok p
      → settings p ≡ settings m
  reset_kept (ok policy) e = ap (λ x. settings x) (sym (ok-injective e))
  reset_kept panic e = cc

module _ {F : Foreign} {S : Type 0} (client : NodeClient S) (labels_at : String → S → GoMap String)
    (L : IsLabelled client labels_at) where
  -- A round that has written without an error leaves the settings, and the state after the write.
  after_write-done :
      (text : String) (m m' : GpuModeManager F) (node : Node) (err : Error) (s t : S)
      → after_write client text m node err s ≡ (ok (m', []), t)
      → (err ≡ none) × (settings m' ≡ settings m) × (s ≡ t)
  after_write-done text m m' node (some x) s t e = cc
  after_write-done text m m' node none s t e =
      let (p, s1, q, e1) = >>=-eq-ok (lift (reset_sync client m node)) _ s t (m', []) e in
      (
        refl,
        ap (λ z. settings z.0) (sym (ok-injective (ap (λ z. z.0) e1)))
            ∙ reset_kept m p
                (update_gpu_node_policy_status m.instance_ node.name (some false) (some false))
                (ap (λ z. z.0) q),
        ap (λ z. z.1) q ∙ ap (λ z. z.1) e1,
      )

  update_node-changed :
      (m m' : GpuModeManager F) (workload : IsWorkload m.workload_config_name) (name : String)
      (labels : Labels) (s t : S)
      → IsFresh labels_at s (record { name = name; labels = labels })
      → update_node client m (record { name = name; labels = labels }) s ≡ (ok (m', []), t)
      → (settings m' ≡ settings m)
        × OnlyChanged labels_at (wanted m workload) (record { name = name; labels = labels }) s t
  unfolding update_node
  update_node-changed m m' workload name nil_map s t f e =
      let e1 = rw (update_gpu_state_labels_nil m workload) at e in cc
  update_node-changed m m' workload name (made d) s t f e =
      let (d', modified, q, look, iff) = update_gpu_state_labels_lem m workload d in
      let old : Node = record { name = name; labels = made d } in
      let new : Node = record { name = name; labels = made d' } in
      let e1 = rw q at e in
      elim (Bool-cases modified) [
        | inl h ↦
            let e2 = rw h at e1 in
            let (err, kept, at_t) =
              after_write-done _ m m' old (error_of (client.patch_node old new s).0) _ t e2 in
            let patch = client.patch_node old new s in
            elim (Fallible-cases patch.0) [
              | inl (a, p) ↦ (
                kept,
                rw (← at_t) (
                    patch-changed client labels_at L (wanted m workload) old a (made d') s f look
                      p),
              )
              | inr (x, p) ↦ let err' = rw p at err in cc
            ]
        | inr h ↦
            let e2 = rw h at e1 in
            (
              ap (λ z. settings z.0) (sym (ok-injective (ap (λ z. z.0) e2))),
              rw (← ap (λ z. z.1) e2) (
                  settled-changed client labels_at L (wanted m workload) old s f
                    (λ k. sym (look k) ∙ iff.0 h k)),
            )
      ]

  update_loop-each :
      (nodes : List Node) (m : GpuModeManager F) (s : S)
      → update_loop client m nodes s ≡ each (update_node client) m nodes s
  unfolding update_loop each
  update_loop-each [] m s = refl
  update_loop-each (node ∷ nodes) m s =
      rw (fun_ext (λ (n : GpuModeManager F). fun_ext (λ (t : S). update_loop-each nodes n t))) refl

  -- A round of a manager with the settings of `m`.
  round :
      (m : GpuModeManager F) (workload : IsWorkload m.workload_config_name)
      (n n' : GpuModeManager F) (node : Node) (s t : S)
      → settings n ≡ settings m
      → IsFresh labels_at s node
      → update_node client n node s ≡ (ok (n', []), t)
      → (settings n' ≡ settings m) × OnlyChanged labels_at (wanted m workload) node s t
  round m workload n n' node s t k f e =
      let (kept, only) =
        update_node-changed n n' (subst (λ x. IsWorkload x.0) (sym k) workload) node.name
          node.labels s t f e in
      (kept ∙ k, subst (λ x. OnlyChanged labels_at (desired_of x) node s t) k only)

  -- The nodes have different names and were read as they stand on the server, the manager is one
  -- that newGpuModeManager makes, and UpdateNodes returns nil. Then on the server each of the nodes
  -- has exactly the labels that the manager wants, and the labels of all other nodes are as they were.
  pub update_nodes_lem :
      (m m' : GpuModeManager F) (workload : IsWorkload m.workload_config_name) (nodes : List Node)
      (s t : S)
      → UniqueNames nodes
      → AllFresh labels_at s nodes
      → update_nodes client m nodes s ≡ (ok (m', none), t)
      → AllHave labels_at (wanted m workload) t nodes × OthersKept labels_at nodes s t
  unfolding update_nodes
  update_nodes_lem m m' workload nodes s t u f e =
      let (c, s1, p, q) = >>=-eq-ok (update_loop client m nodes) _ s t (m', none) e in
      let none1 : c.1 ≡ [] =
        joined_error-none client.errorf c.1 (ap (λ x. x.1) (ok-injective (ap (λ x. x.0) q))) in
      each-changed labels_at (wanted m workload) (λ n. settings n ≡ settings m) (update_node client)
        (round m workload) nodes m c.0 s t refl u f
        (sym (update_loop-each nodes m s) ∙ p ∙ (λ i. (ok (c.0, none1 i), ap (λ x. x.1) q i)))
