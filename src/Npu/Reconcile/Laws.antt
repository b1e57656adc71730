-- ===== src/Npu/Reconcile/Laws.antt =====
-- Which errors of the loops over nodes a reconciliation of the NPU controller reports.
use accelerator_config_manag.Prelude.{
  Bool, false, none, List, [], ◌∷◌, ◌≡◌, ap, sym, Bool-cases, inl, inr,
}
use accelerator_config_manag.Prelude.Dict.{Dict}
use accelerator_config_manag.Prelude.Run.{ok, ok-injective}
use accelerator_config_manag.Prelude.Eff.{lift, >>=-eq-ok}
use accelerator_config_manag.Api.Meta.{Node, NamespacedName, Error}
use accelerator_config_manag.Api.Npu.{NpuNodePolicy}
use accelerator_config_manag.Common.Filter.{filter_nodes}
use accelerator_config_manag.Common.DeepEqual.{deep_equal}
use accelerator_config_manag.Common.Outcome.{Outcome, finish}
use accelerator_config_manag.Npu.Controls.{new_npu_mode_manager}
use accelerator_config_manag.Npu.Status.{init_npu_node_policy_status}
use accelerator_config_manag.Npu.Nodes.{adopt_nodes, update_nodes, release_nodes, release_loop}
use accelerator_config_manag.Npu.External.{NpuClient}
use accelerator_config_manag.Npu.Reconcile.{setup_nodes, write_status, NpuNodeStatus-discrete}

module _ {S : Type 0} (client : NpuClient S) where
  write_status-finish :
      (req : NamespacedName) (origin policy : NpuNodePolicy) (requeue : Bool) (s s' : S)
      (out : Outcome)
      → requeue ≡ false
      → ((p : NpuNodePolicy) (t : S) → (client.update_status p t).0 ≡ none)
      → write_status client req origin policy requeue s ≡ (ok out, s')
      → out ≡ finish
  unfolding write_status
  write_status-finish req origin policy requeue s s' out h0 h e =
      elim (Bool-cases
        (deep_equal NpuNodeStatus-discrete origin.status.nodes policy.status.nodes)) [
          | inl q ↦ let e1 = rw (q, h0) at e in sym (ok-injective (ap (λ x. x.0) e1))
          | inr q ↦ let e1 = rw (q, h0, h policy s) at e in sym (ok-injective (ap (λ x. x.0) e1))
        ]

  release_nodes-requeue :
      (nodes : List Node) (s t : S) (r : Bool × Error)
      → nodes ≡ []
      → release_nodes client.nodes nodes s ≡ (ok r, t)
      → r.0 ≡ false
  unfolding release_nodes release_loop
  release_nodes-requeue [] s t r h e = sym (ap (λ x. x.0) (ok-injective (ap (λ x. x.0) e)))
  release_nodes-requeue (node ∷ nodes) s t r h e = cc

  module _ (visit : Dict Node → Dict Node) where
    -- No node is to be released, and the writing of the status does not fail. Then a reconciliation
    -- that gets to its nodes ends with success and without a requeue, whatever the calls that adopt
    -- and update the nodes have answered.
    pub npu_setup_nodes-finish :
        (req : NamespacedName) (origin : NpuNodePolicy) (claimed matched : List Node) (s s' : S)
        (out : Outcome)
        → (filter_nodes visit claimed matched).release ≡ []
        → ((p : NpuNodePolicy) (t : S) → (client.update_status p t).0 ≡ none)
        → setup_nodes client visit req origin claimed matched s ≡ (ok out, s')
        → out ≡ finish
    unfolding setup_nodes
    npu_setup_nodes-finish req origin claimed matched s s' out released never e =
        let f = filter_nodes visit claimed matched in
        let (policy, s1, p1, e1) =
          >>=-eq-ok (lift (init_npu_node_policy_status origin claimed)) _ s s' out e in
        let (a, s2, p2, e2) =
          >>=-eq-ok (adopt_nodes client.nodes (new_npu_mode_manager policy) f.adopt) _ s1 s' out
            e1 in
        let (u, s3, p3, e3) = >>=-eq-ok (update_nodes client.nodes a.0 f.match_) _ s2 s' out e2 in
        let (r, s4, p4, e4) = >>=-eq-ok (release_nodes client.nodes f.release) _ s3 s' out e3 in
        write_status-finish req origin u.0.instance_ r.0 s4 s' out
          (release_nodes-requeue f.release s3 s4 r released p4) never e4
