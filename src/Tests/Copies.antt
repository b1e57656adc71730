-- ===== src/Tests/Copies.antt =====
-- Copies of two policies.
use accelerator_config_manag.Prelude.{String, true, Option, none, some, List, [], ◌∷◌, ◌≡◌, arith}
use accelerator_config_manag.Prelude.Int.{pos}
use accelerator_config_manag.Api.Meta.{ObjectMeta}
use accelerator_config_manag.DeepCopy.Memory.{
  Ref, plain, copy_ref, no_places, places_ref, places_list, places_dict, read_ref, to_slice,
}
use accelerator_config_manag.DeepCopy.Memory.Laws.{
  IsDeep, Between, Apart, plain-IsDeep, ref-IsDeep, seen-IsDeep,
}
use accelerator_config_manag.DeepCopy.Gpu.{GpuNodePolicy, deep_copy_gpu_node_policy}
use accelerator_config_manag.DeepCopy.Gpu.Laws as Gpu
use accelerator_config_manag.DeepCopy.Npu.{NpuNodePolicy, deep_copy_npu_node_policy}
use accelerator_config_manag.DeepCopy.Npu.Laws as Npu
use accelerator_config_manag.DeepCopy.Laws.{deep_copy_lem}
use accelerator_config_manag.Tests.Resources.{texts}

-- Of the metadata only the finalizers are a slice.
abbrev to_meta : Option (List String) → ObjectMeta
to_meta finalizers = record {
  name = "a";
  resource_version = "1";
  deletion_timestamp = none;
  finalizers = to_slice finalizers;
}

meta-IsDeep :
    IsDeep
      (λ (m : Ref (List String)). to_meta (read_ref (λ a. a) m))
      (places_ref no_places)
      (copy_ref plain)
meta-IsDeep = seen-IsDeep (ref-IsDeep plain-IsDeep) to_meta

abbrev finalizers : Ref (List String)
finalizers = some (record { address = 1; content = "release.finalizers.ecns.easystack.io" ∷ [] })

abbrev gpu : Ref (GpuNodePolicy texts (List String) (Ref (List String)))
gpu = some (record {
  address = 0;
  content = record {
    metadata = finalizers;
    spec = record {
      node_selector = some (record { address = 2; content = ("gpu", "true") ∷ [] });
      priority = pos 1;
      mode = "default";
      vcuda_config = none;
      time_slicing_config = none;
      mig_config = none;
    };
    status = record {
      nodes = some (record {
        address = 3;
        content =
            (
              "n1",
              record {
                time_slicing_mode = none;
                mig_mode = none;
                default_mode = some (record { address = 4; content = record { enabled = true } });
                pass_through_mode = none;
                vcuda_mode = none;
              },
            )
            ∷ [];
      });
    };
  };
})

abbrev npu : Ref (NpuNodePolicy (Ref (List String)))
npu = some (record {
  address = 0;
  content = record {
    metadata = finalizers;
    spec = record {
      node_selector = some (record { address = 2; content = ("npu", "true") ∷ [] });
      priority = pos 1;
      mode = "vm";
      vnpu_config = none;
    };
    status = record { nodes = none };
  };
})

abbrev migs : Option (List String) → String
migs entries = ""

taken : Between 0 5 (places_ref (Gpu.policy_places migs meta-IsDeep) gpu)
unfolding places_ref places_list places_dict
taken = (
  omega arith,
  omega arith,
  (
    omega arith,
    omega arith,
    (omega arith, omega arith, (omega arith, omega arith, (omega arith, omega arith, tt))),
  ),
)

taken' : Between 0 5 (places_ref (Npu.policy_places meta-IsDeep) npu)
unfolding places_ref places_list places_dict
taken' = (omega arith, omega arith, (omega arith, omega arith, (omega arith, omega arith, tt)))

deep_copy_lem_example :
    ((read_ref
          (Gpu.read_policy migs meta-IsDeep)
          (deep_copy_gpu_node_policy (copy_ref plain) gpu 5).0
        ≡ read_ref (Gpu.read_policy migs meta-IsDeep) gpu)
      × Apart
          (places_ref
            (Gpu.policy_places migs meta-IsDeep)
            (deep_copy_gpu_node_policy (copy_ref plain) gpu 5).0)
          (places_ref (Gpu.policy_places migs meta-IsDeep) gpu))
    × ((read_ref (Npu.read_policy meta-IsDeep) (deep_copy_npu_node_policy (copy_ref plain) npu 5).0
          ≡ read_ref (Npu.read_policy meta-IsDeep) npu)
        × Apart
            (places_ref
              (Npu.policy_places meta-IsDeep)
              (deep_copy_npu_node_policy (copy_ref plain) npu 5).0)
            (places_ref (Npu.policy_places meta-IsDeep) npu))
deep_copy_lem_example = deep_copy_lem migs meta-IsDeep gpu npu 5 taken taken'
