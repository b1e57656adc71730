-- ===== src/Npu/Reconcile/Finalize.antt =====
-- The finalization of the NPU controller: it waits until the daemons have restored all nodes.
use accelerator_config_manag.Prelude.{Bool, true, false, none, List, ◌≡◌, refl, sym, ap, ◌∙◌}
use accelerator_config_manag.Prelude.Run.{ok, ok-injective}
use accelerator_config_manag.Prelude.Eff.{>>=-eq-ok}
use accelerator_config_manag.Api.Meta.{Node, Error, done}
use accelerator_config_manag.Api.Npu.{NpuNodePolicy}
use accelerator_config_manag.Common.Client.{joined_error}
use accelerator_config_manag.Common.Outcome.{Outcome}
use accelerator_config_manag.Common.Text.{string_in_array}
use accelerator_config_manag.Gpu.Names.{release_finalizer_name}
use accelerator_config_manag.Npu.Nodes.{release_loop, release_nodes}
use accelerator_config_manag.Npu.Nodes.Unrestored.{
  release_loop-waits, release_loop-skips, unrestored, is_some_node,
}
use accelerator_config_manag.Npu.External.{NpuClient}
use accelerator_config_manag.Npu.Reconcile.{after_release, drop_finalizer, finalize}

module _ {S : Type 0} (client : NpuClient S) where
  waiting :
      (origin : NpuNodePolicy) (c : Bool × Error) (out : Outcome) (s t : S)
      → c.0 ≡ true
      → after_release client origin c s ≡ (ok out, t)
      → (out ≡ (record { requeue = true; requeue_after = none }, c.1)) × (s ≡ t)
  waiting origin (true, err) out s t h e = (sym (ok-injective (ap (λ x. x.0) e)), ap (λ x. x.1) e)
  waiting origin (false, err) out s t h e = cc

  -- A policy with the finalizer is being deleted, and the nodes of its selector have been listed.
  -- If all of them are restored, the finalization is the removal of the finalizer, and nothing is
  -- written to a node. If one of them is not, and the finalization does not panic, it ends after
  -- ReleaseNodes with a requeue, whatever the writes to the nodes have answered, and the finalizer
  -- stays.
  pub npu_finalize_lem :
      (origin : NpuNodePolicy) (nodes : List Node) (s s1 : S)
      → string_in_array release_finalizer_name origin.metadata.finalizers ≡ true
      → client.nodes.list_nodes origin.spec.node_selector s ≡ (done nodes, s1)
      → (is_some_node (unrestored nodes) ≡ false
          → finalize client origin s ≡ drop_finalizer client none origin s1)
        × ((out : Outcome) (t : S)
            → is_some_node (unrestored nodes) ≡ true
            → finalize client origin s ≡ (ok out, t)
            → (release_nodes client.nodes nodes s1 ≡ (ok (true, out.1), t))
              × (out.0 ≡ record { requeue = true; requeue_after = none }))
  unfolding finalize release_nodes joined_error
  npu_finalize_lem origin nodes s s1 has listed = (
    (λ w. rw (has, listed, release_loop-skips client.nodes nodes s1 w) refl),
    (λ out t w e.
        let e1 = rw (has, listed) at e in
        let (c, s2, p, q) =
          >>=-eq-ok (release_nodes client.nodes nodes) (λ c. after_release client origin c) s1 t out
            e1 in
        let (d, s3, p', q') = >>=-eq-ok (release_loop client.nodes nodes) _ s1 s2 c p in
        let waits = release_loop-waits client.nodes nodes d.0 d.1 s1 s3 w p' in
        let flag : c.0 ≡ true = sym (ap (λ x. x.0) (ok-injective (ap (λ x. x.0) q'))) ∙ waits in
        let (ends, at_t) = waiting origin c out s2 t flag q in
        (p ∙ (λ i. (ok (flag i, sym (ap (λ x. x.1) ends) i), at_t i)), ap (λ x. x.0) ends)),
  )
