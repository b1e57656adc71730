-- ===== src/DeepCopy/Gpu/Laws.antt =====
-- DeepCopy of a GpuNodePolicy: the policy of the model, in a memory of its own.
use accelerator_config_manag.Prelude.{Option, List, ◌++◌, ◌≡◌, refl, ap, ℕ}
use accelerator_config_manag.Api.Foreign.{Foreign}
use accelerator_config_manag.Api.Meta.{ObjectMeta}
use accelerator_config_manag.Api.Gpu as Api
use accelerator_config_manag.DeepCopy.Memory.{
  Ref, Copy, no_places, places_ref, places_list, places_dict, read_ref, read_list, read_dict,
  to_map, to_slice,
}
use accelerator_config_manag.DeepCopy.Memory.Laws.{
  IsDeep, Between, Apart, Between-Apart, plain-IsDeep, ref-IsDeep, list-IsDeep, dict-IsDeep,
  parts-IsDeep, both-IsDeep,
}
use accelerator_config_manag.DeepCopy.Gpu.{
  GpuNodeStatus, GpuNodePolicyStatus, MigConfigSpecSlice, MigConfigSpec, TimeSlicingConfigSpec,
  GpuNodePolicySpec, GpuNodePolicy, copy_gpu_node_status, copy_gpu_node_policy_status,
  copy_mig_config_spec_slice, copy_mig_config_spec, copy_time_slicing_config_spec,
  copy_gpu_node_policy_spec, copy_gpu_node_policy, deep_copy_gpu_node_policy,
}

abbrev read_status : GpuNodeStatus → Api.GpuNodeStatus
read_status s = record {
  time_slicing_mode = read_ref (λ a. a) s.time_slicing_mode;
  mig_mode = read_ref (λ a. a) s.mig_mode;
  default_mode = read_ref (λ a. a) s.default_mode;
  pass_through_mode = read_ref (λ a. a) s.pass_through_mode;
  vcuda_mode = read_ref (λ a. a) s.vcuda_mode;
}

abbrev status_places : GpuNodeStatus → List ℕ
status_places s =
    places_ref no_places s.time_slicing_mode
    ++ (places_ref no_places s.mig_mode
        ++ (places_ref no_places s.default_mode
            ++ (places_ref no_places s.pass_through_mode ++ places_ref no_places s.vcuda_mode)))

status-IsDeep : IsDeep read_status status_places copy_gpu_node_status
status-IsDeep =
    parts-IsDeep
      (both-IsDeep (ref-IsDeep plain-IsDeep) (
        both-IsDeep (ref-IsDeep plain-IsDeep) (
          both-IsDeep (ref-IsDeep plain-IsDeep)
            (both-IsDeep (ref-IsDeep plain-IsDeep) (ref-IsDeep plain-IsDeep)))))
      (λ s.
        (s.time_slicing_mode, (s.mig_mode, (s.default_mode, (s.pass_through_mode, s.vcuda_mode)))))
      read_status copy_gpu_node_status (λ s n. refl) (λ s n. refl)
      (λ s n e.
        ap
          (λ v. record {
            time_slicing_mode = v.0;
            mig_mode = v.1.0;
            default_mode = v.1.1.0;
            pass_through_mode = v.1.1.1.0;
            vcuda_mode = v.1.1.1.1;
          })
          e)

abbrev read_policy_status : GpuNodePolicyStatus → Api.GpuNodePolicyStatus
read_policy_status s = record { nodes = to_map (read_ref (read_dict read_status) s.nodes) }

abbrev policy_status_places : GpuNodePolicyStatus → List ℕ
policy_status_places s = places_ref (places_dict status_places) s.nodes

policy_status-IsDeep : IsDeep read_policy_status policy_status_places copy_gpu_node_policy_status
policy_status-IsDeep =
    parts-IsDeep (ref-IsDeep (dict-IsDeep status-IsDeep)) (λ s. s.nodes) read_policy_status
      copy_gpu_node_policy_status (λ s n. refl) (λ s n. refl)
      (λ s n e. ap (λ v. record { nodes = to_map v }) e)

module _ {F : Foreign} {Entries : Type 0} (to_mig_config : Option Entries → F.MigConfig) where
  abbrev read_slice : MigConfigSpecSlice F Entries → Api.MigConfigSpecSlice F
  read_slice s = record {
    device_filter = s.device_filter;
    devices = s.devices;
    mig_devices = to_mig_config (read_ref (λ a. a) s.mig_devices);
  }

  abbrev slice_places : MigConfigSpecSlice F Entries → List ℕ
  slice_places s = places_ref no_places s.mig_devices

  slice-IsDeep : IsDeep read_slice slice_places copy_mig_config_spec_slice
  slice-IsDeep =
      parts-IsDeep (ref-IsDeep plain-IsDeep) (λ s. s.mig_devices) read_slice
        copy_mig_config_spec_slice (λ s n. refl) (λ s n. refl)
        (λ s n e.
          ap
            (λ v. record {
              device_filter = s.device_filter;
              devices = s.devices;
              mig_devices = to_mig_config v;
            })
            e)

  abbrev read_mig : MigConfigSpec F Entries → Api.MigConfigSpec F
  read_mig s = record {
    strategy = s.strategy;
    config_slice = to_slice (read_ref (read_list read_slice) s.config_slice);
  }

  abbrev mig_places : MigConfigSpec F Entries → List ℕ
  mig_places s = places_ref (places_list slice_places) s.config_slice

  mig-IsDeep : IsDeep read_mig mig_places copy_mig_config_spec
  mig-IsDeep =
      parts-IsDeep (ref-IsDeep (list-IsDeep slice-IsDeep)) (λ s. s.config_slice) read_mig
        copy_mig_config_spec (λ s n. refl) (λ s n. refl)
        (λ s n e. ap (λ v. record { strategy = s.strategy; config_slice = to_slice v }) e)

  abbrev read_time_slicing : TimeSlicingConfigSpec F Entries → Api.TimeSlicingConfigSpec F
  read_time_slicing s = record {
    rename_by_default = s.rename_by_default;
    fail_requests_greater_than_one = s.fail_requests_greater_than_one;
    resources = read_ref (λ a. a) s.resources;
  }

  abbrev time_slicing_places : TimeSlicingConfigSpec F Entries → List ℕ
  time_slicing_places s = places_ref no_places s.resources

  time_slicing-IsDeep : IsDeep read_time_slicing time_slicing_places copy_time_slicing_config_spec
  time_slicing-IsDeep =
      parts-IsDeep (ref-IsDeep plain-IsDeep) (λ s. s.resources) read_time_slicing
        copy_time_slicing_config_spec (λ s n. refl) (λ s n. refl)
        (λ s n e.
          ap
            (λ v. record {
              rename_by_default = s.rename_by_default;
              fail_requests_greater_than_one = s.fail_requests_greater_than_one;
              resources = v;
            })
            e)

  abbrev read_spec : GpuNodePolicySpec F Entries → Api.GpuNodePolicySpec F
  read_spec s = record {
    node_selector = to_map (read_ref (λ a. a) s.node_selector);
    priority = s.priority;
    mode = s.mode;
    vcuda_config = read_ref (λ a. a) s.vcuda_config;
    time_slicing_config = read_ref read_time_slicing s.time_slicing_config;
    mig_config = read_ref read_mig s.mig_config;
  }

  abbrev spec_places : GpuNodePolicySpec F Entries → List ℕ
  spec_places s =
      places_ref no_places s.node_selector
      ++ (places_ref no_places s.vcuda_config
          ++ (places_ref time_slicing_places s.time_slicing_config
              ++ places_ref mig_places s.mig_config))

  spec-IsDeep : IsDeep read_spec spec_places copy_gpu_node_policy_spec
  spec-IsDeep =
      parts-IsDeep
        (both-IsDeep (ref-IsDeep plain-IsDeep) (
          both-IsDeep (ref-IsDeep plain-IsDeep)
            (both-IsDeep (ref-IsDeep time_slicing-IsDeep) (ref-IsDeep mig-IsDeep))))
        (λ s. (s.node_selector, (s.vcuda_config, (s.time_slicing_config, s.mig_config)))) read_spec
        copy_gpu_node_policy_spec (λ s n. refl) (λ s n. refl)
        (λ s n e.
          ap
            (λ v. record {
              node_selector = to_map v.0;
              priority = s.priority;
              mode = s.mode;
              vcuda_config = v.1.0;
              time_slicing_config = v.1.1.0;
              mig_config = v.1.1.1;
            })
            e)

  module _ {Meta : Type 0} {read_meta : Meta → ObjectMeta} {meta_places : Meta → List ℕ}
      {copy_meta : Copy Meta} (meta-IsDeep : IsDeep read_meta meta_places copy_meta) where
    -- The policy of the model, wherever its parts are.
    abbrev pub read_policy : GpuNodePolicy F Entries Meta → Api.GpuNodePolicy F
    read_policy p = record {
      metadata = read_meta p.metadata;
      spec = read_spec p.spec;
      status = read_policy_status p.status;
    }

    -- All places that the policy reaches.
    abbrev pub policy_places : GpuNodePolicy F Entries Meta → List ℕ
    policy_places p =
        meta_places p.metadata ++ (spec_places p.spec ++ policy_status_places p.status)

    policy-IsDeep : IsDeep read_policy policy_places (copy_gpu_node_policy copy_meta)
    unfolding copy_gpu_node_policy
    policy-IsDeep =
        parts-IsDeep (both-IsDeep meta-IsDeep (both-IsDeep spec-IsDeep policy_status-IsDeep))
          (λ p. (p.metadata, (p.spec, p.status))) read_policy (copy_gpu_node_policy copy_meta)
          (λ p n. refl) (λ p n. refl)
          (λ p n e. ap (λ v. record { metadata = v.0; spec = v.1.0; status = v.1.1 }) e)

    -- The metadata are copied deeply, and all places of a GpuNodePolicy are taken. Then the copy that
    -- DeepCopy makes of it reads as the same policy, nil included, and neither the copy itself nor any
    -- pointer, map or slice in it stands at a place that the original reaches, so that no write
    -- through the one is seen through the other.
    pub deep_copy_gpu_node_policy_lem :
        (p : Ref (GpuNodePolicy F Entries Meta)) (n : ℕ)
        → Between 0 n (places_ref policy_places p)
        → (read_ref read_policy (deep_copy_gpu_node_policy copy_meta p n).0
            ≡ read_ref read_policy p)
          × Apart
              (places_ref policy_places (deep_copy_gpu_node_policy copy_meta p n).0)
              (places_ref policy_places p)
    unfolding deep_copy_gpu_node_policy
    deep_copy_gpu_node_policy_lem p n taken =
        let deep = ref-IsDeep policy-IsDeep in
        (deep.same p n, Between-Apart n _ _ _ (deep.fresh p n) taken)
