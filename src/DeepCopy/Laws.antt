-- ===== src/DeepCopy/Laws.antt =====
-- DeepCopy of both policies.
use accelerator_config_manag.Prelude.{Option, List, ◌≡◌, ℕ}
use accelerator_config_manag.Api.Foreign.{Foreign}
use accelerator_config_manag.Api.Meta.{ObjectMeta}
use accelerator_config_manag.DeepCopy.Memory.{Ref, Copy, places_ref, read_ref}
use accelerator_config_manag.DeepCopy.Memory.Laws.{IsDeep, Between, Apart}
use accelerator_config_manag.DeepCopy.Gpu.{GpuNodePolicy, deep_copy_gpu_node_policy}
use accelerator_config_manag.DeepCopy.Gpu.Laws as Gpu
use accelerator_config_manag.DeepCopy.Gpu.Laws.{deep_copy_gpu_node_policy_lem}
use accelerator_config_manag.DeepCopy.Npu.{NpuNodePolicy, deep_copy_npu_node_policy}
use accelerator_config_manag.DeepCopy.Npu.Laws as Npu
use accelerator_config_manag.DeepCopy.Npu.Laws.{deep_copy_npu_node_policy_lem}

module _ {F : Foreign} {Entries Meta : Type 0} (to_mig_config : Option Entries → F.MigConfig)
    {read_meta : Meta → ObjectMeta} {meta_places : Meta → List ℕ} {copy_meta : Copy Meta}
    (meta-IsDeep : IsDeep read_meta meta_places copy_meta) where
  -- The metadata of the policies are copied deeply, and all places of a GpuNodePolicy and of an
  -- NpuNodePolicy are taken. Then the copy that DeepCopy makes of each reads as the same policy, nil
  -- included, and neither the copy itself nor any pointer, map or slice in it stands at a place that
  -- the original reaches.
  pub deep_copy_lem :
      (p : Ref (GpuNodePolicy F Entries Meta)) (q : Ref (NpuNodePolicy Meta)) (n : ℕ)
      → Between 0 n (places_ref (Gpu.policy_places to_mig_config meta-IsDeep) p)
      → Between 0 n (places_ref (Npu.policy_places meta-IsDeep) q)
      → ((read_ref
              (Gpu.read_policy to_mig_config meta-IsDeep)
              (deep_copy_gpu_node_policy copy_meta p n).0
            ≡ read_ref (Gpu.read_policy to_mig_config meta-IsDeep) p)
          × Apart
              (places_ref
                (Gpu.policy_places to_mig_config meta-IsDeep)
                (deep_copy_gpu_node_policy copy_meta p n).0)
              (places_ref (Gpu.policy_places to_mig_config meta-IsDeep) p))
        × ((read_ref (Npu.read_policy meta-IsDeep) (deep_copy_npu_node_policy copy_meta q n).0
              ≡ read_ref (Npu.read_policy meta-IsDeep) q)
            × Apart
                (places_ref
                  (Npu.policy_places meta-IsDeep)
                  (deep_copy_npu_node_policy copy_meta q n).0)
                (places_ref (Npu.policy_places meta-IsDeep) q))
  deep_copy_lem p q n taken taken' = (
    deep_copy_gpu_node_policy_lem to_mig_config meta-IsDeep p n taken,
    deep_copy_npu_node_policy_lem meta-IsDeep q n taken',
  )
