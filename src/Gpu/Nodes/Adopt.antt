-- ===== src/Gpu/Nodes/Adopt.antt =====
-- AdoptNodes leaves the nodes of other policies alone.
use accelerator_config_manag.Prelude.{
  String, Bool, true, false, not, ◌&&◌, ◌||◌, ◌==◌, none, some, List, [], ◌∷◌, ◌≡◌, refl, sym, ap,
  ◌∙◌, Bool-cases, Option-cases, inl, inr, arith,
}
use accelerator_config_manag.Prelude.GoMap.{GoMap, get}
use accelerator_config_manag.Prelude.Run
use accelerator_config_manag.Api.Gpu.{GpuNodePolicy}
use accelerator_config_manag.Prelude.Run.{Run, ok, panic, ok-injective}
use accelerator_config_manag.Prelude.Eff.{lift, >>=-eq-ok}
use accelerator_config_manag.Api.Foreign.{Foreign}
use accelerator_config_manag.Api.Meta.{Node, Error}
use accelerator_config_manag.Common.Client.{NodeClient}
use accelerator_config_manag.Common.Client.Labelled.{IsLabelled}
use accelerator_config_manag.Gpu.Names.{mode_managed_by_label}
use accelerator_config_manag.Gpu.Controls.{GpuModeManager, update_gpu_state_labels}
use accelerator_config_manag.Gpu.Status.{update_gpu_node_policy_status}
use accelerator_config_manag.Gpu.Nodes.{
  held_by_other, after_write, reset_sync, adopt_node, adopt_loop, adopt_nodes,
}

-- Every node of the list with the name is held by another policy.
unfoldable pub all_held : String → String → List Node → Bool
all_held managed_by name [] = true
all_held managed_by name (node ∷ nodes) =
    (not (node.name == name) || held_by_other managed_by (get mode_managed_by_label node.labels))
    && all_held managed_by name nodes

module _ {S : Type 0} (client : NodeClient S) (labels_at : String → S → GoMap String)
    (L : IsLabelled client labels_at) where
  -- An update, failed or not, changes the labels of its own node at most.
  updated-other :
      (node : Node) (name k : String) (s : S)
      → (node.name == name) ≡ false
      → get k (labels_at name (client.update_node node s).1) ≡ get k (labels_at name s)
  updated-other node name k s h = elim (Option-cases (client.update_node node s).0) [
    | inl p ↦ L.updated node s p name k ∙ rw h refl
    | inr (x, p) ↦ L.update_failed node x s p name k
  ]

reset_kept :
    {F : Foreign} (m p : GpuModeManager F) (r : Run (GpuNodePolicy F))
    → Run.◌>>=◌ r (λ policy. ok (record m { instance_ = policy })) ≡ ok p
    → p.managed_by ≡ m.managed_by
reset_kept m p (ok policy) e = ap (λ x. x.managed_by) (sym (ok-injective e))
reset_kept m p panic e = cc

module _ {F : Foreign} {S : Type 0} (client : NodeClient S) (labels_at : String → S → GoMap String)
    (L : IsLabelled client labels_at) where
  after_write-kept :
      (text : String) (m m' : GpuModeManager F) (node : Node) (err : Error) (errs : List String)
      (s t : S)
      → after_write client text m node err s ≡ (ok (m', errs), t)
      → (m'.managed_by ≡ m.managed_by) × (t ≡ s)
  after_write-kept text m m' node none errs s t e =
      let (policy, s1, p, q) = >>=-eq-ok (lift (reset_sync client m node)) _ s t (m', errs) e in
      (
        ap (λ z. z.0.managed_by) (sym (ok-injective (ap (λ z. z.0) q)))
            ∙ reset_kept m policy
                (update_gpu_node_policy_status m.instance_ node.name (some false) (some false))
                (ap (λ z. z.0) p),
        sym (ap (λ z. z.1) q) ∙ sym (ap (λ z. z.1) p),
      )
  after_write-kept text m m' node (some x) errs s t e =
      (ap (λ z. z.0.managed_by) (sym (ok-injective (ap (λ z. z.0) e))), sym (ap (λ z. z.1) e))

  adopt_node-kept :
      (m m' : GpuModeManager F) (node : Node) (errs : List String) (name k : String) (s t : S)
      → (not (node.name == name)
          || held_by_other m.managed_by (get mode_managed_by_label node.labels))
        ≡ true
      → adopt_node client m node s ≡ (ok (m', errs), t)
      → (m'.managed_by ≡ m.managed_by) × (get k (labels_at name t) ≡ get k (labels_at name s))
  unfolding adopt_node
  adopt_node-kept m m' node errs name k s t h e =
      elim (Bool-cases (held_by_other m.managed_by (get mode_managed_by_label node.labels))) [
        | inl q ↦
            let e1 = rw q at e in
            (
              ap (λ z. z.0.managed_by) (sym (ok-injective (ap (λ z. z.0) e1))),
              ap (λ z. get k (labels_at name z.1)) (sym e1),
            )
        | inr q ↦
            let e1 = rw q at e in
            let (c, s1, p1, e2) =
              >>=-eq-ok (lift (update_gpu_state_labels m node.labels)) _ s t (m', errs) e1 in
            let same : s1 ≡ s = sym (ap (λ z. z.1) p1) in
            elim (Bool-cases c.1) [
              | inl f ↦
                  let new : Node = record { name = node.name; labels = c.0 } in
                  let e3 = rw f at e2 in
                  let (kept, at_t) =
                    after_write-kept _ m m' node (client.update_node new s1).0 errs
                      (client.update_node new s1).1 t e3 in
                  (
                    kept,
                    ap (λ z. get k (labels_at name z)) at_t
                        ∙ updated-other client labels_at L new name k s1 (ground arith)
                        ∙ ap (λ z. get k (labels_at name z)) same,
                  )
              | inr f ↦
                  let e3 = rw f at e2 in
                  (
                    ap (λ z. z.0.managed_by) (sym (ok-injective (ap (λ z. z.0) e3))),
                    ap (λ z. get k (labels_at name z)) (sym (ap (λ z. z.1) e3) ∙ same),
                  )
            ]
      ]

  adopt_loop-kept :
      (nodes : List Node) (m m' : GpuModeManager F) (errs : List String) (name k : String) (s t : S)
      → all_held m.managed_by name nodes ≡ true
      → adopt_loop client m nodes s ≡ (ok (m', errs), t)
      → get k (labels_at name t) ≡ get k (labels_at name s)
  unfolding adopt_loop all_held
  adopt_loop-kept [] m m' errs name k s t h e = ap (λ z. get k (labels_at name z.1)) (sym e)
  adopt_loop-kept (node ∷ nodes) m m' errs name k s t h e =
      let (c, s1, p1, e1) = >>=-eq-ok (adopt_node client m node) _ s t (m', errs) e in
      let (c', s2, p2, e2) = >>=-eq-ok (adopt_loop client c.0 nodes) _ s1 t (m', errs) e1 in
      let (kept, same) = adopt_node-kept m c.0 node c.1 name k s s1 (ground arith) p1 in
      ap (λ z. get k (labels_at name z.1)) (sym e2)
      ∙ adopt_loop-kept nodes c.0 c'.0 c'.1 name k s1 s2 (rw kept (ground arith)) p2
      ∙ same

  -- AdoptNodes, also where some of its writes fail, leaves the labels on the server of every name
  -- alone that it is not given, or is given only for nodes that another policy holds. This is so
  -- whatever the priorities of the two policies: a policy of a higher priority does not override the
  -- one that holds the node.
  pub adopt_nodes_lem :
      (nodes : List Node) (m m' : GpuModeManager F) (err : Error) (name k : String) (s t : S)
      → all_held m.managed_by name nodes ≡ true
      → adopt_nodes client m nodes s ≡ (ok (m', err), t)
      → get k (labels_at name t) ≡ get k (labels_at name s)
  unfolding adopt_nodes
  adopt_nodes_lem nodes m m' err name k s t h e =
      let (c, s1, p1, e1) = >>=-eq-ok (adopt_loop client m nodes) _ s t (m', err) e in
      ap (λ z. get k (labels_at name z.1)) (sym e1)
      ∙ adopt_loop-kept nodes m c.0 c.1 name k s s1 h p1
