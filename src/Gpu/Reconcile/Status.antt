-- ===== src/Gpu/Reconcile/Status.antt =====
-- When Reconcile of internal/controller/gpunodepolicy_controller.go writes the status of its policy.
use accelerator_config_manag.Prelude.{
  String, Bool, true, false, none, some, ◌≡◌, refl, Bool-cases, inl, inr,
}
use accelerator_config_manag.Prelude.Run.{ok}
use accelerator_config_manag.Api.Meta.{NamespacedName, Error}
use accelerator_config_manag.Api.Foreign.{Foreign}
use accelerator_config_manag.Api.Gpu.{GpuNodePolicy}
use accelerator_config_manag.Gpu.External.{Library, GpuClient}
use accelerator_config_manag.Common.DeepEqual.{deep_equal}
use accelerator_config_manag.Common.DeepEqual.Laws.{Same, KeysOnce, deep_equal_lem}
use accelerator_config_manag.Common.Outcome.{set_up, write_outcome}
use accelerator_config_manag.Gpu.Reconcile.{write_status, GpuNodeStatus-discrete}

module _ {F : Foreign} {S : Type 0} (lib : Library F) (client : GpuClient F S)
    (namespace : String) where
  write_status-same :
      (req : NamespacedName) (origin policy : GpuNodePolicy F) (requeue : Bool) (s : S)
      → deep_equal GpuNodeStatus-discrete origin.status.nodes policy.status.nodes ≡ true
      → write_status lib client namespace req origin policy requeue s ≡ (ok (set_up req requeue), s)
  unfolding write_status
  write_status-same req origin policy requeue s q = rw q refl

  write_status-changed :
      (req : NamespacedName) (origin policy : GpuNodePolicy F) (requeue : Bool) (s t : S)
      (err : Error)
      → deep_equal GpuNodeStatus-discrete origin.status.nodes policy.status.nodes ≡ false
      → client.update_status policy s ≡ (err, t)
      → write_status lib client namespace req origin policy requeue s
        ≡ (ok (write_outcome req requeue err), t)
  unfolding write_status
  write_status-changed req origin policy requeue s t none q u = rw (q, u) refl
  write_status-changed req origin policy requeue s t (some e) q u = rw (q, u) refl

  -- No node stands twice in the status that the GPU controller has read, nor in the one it has made.
  -- If both are the same, whatever their order, the reconciliation ends without a call. If they are
  -- not, it writes the new status, and a failure of that is its error.
  pub write_status_lem :
      (req : NamespacedName) (origin policy : GpuNodePolicy F) (requeue : Bool) (s : S)
      → KeysOnce origin.status.nodes
      → KeysOnce policy.status.nodes
      → (Same origin.status.nodes policy.status.nodes
          → write_status lib client namespace req origin policy requeue s
            ≡ (ok (set_up req requeue), s))
        × (¬ Same origin.status.nodes policy.status.nodes
            → (err : Error) (t : S) → client.update_status policy s ≡ (err, t)
            → write_status lib client namespace req origin policy requeue s
              ≡ (ok (write_outcome req requeue err), t))
  write_status_lem req origin policy requeue s u w =
      let law = deep_equal_lem GpuNodeStatus-discrete origin.status.nodes policy.status.nodes u w in
      (
        (λ same. write_status-same req origin policy requeue s (law.1 same)),
        (λ differ err t written.
            elim (Bool-cases
              (deep_equal GpuNodeStatus-discrete origin.status.nodes policy.status.nodes)) [
                | inl q ↦ absurd (differ (law.0 q))
                | inr q ↦ write_status-changed req origin policy requeue s t err q written
              ]),
      )
