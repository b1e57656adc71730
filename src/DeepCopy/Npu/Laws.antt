-- ===== src/DeepCopy/Npu/Laws.antt =====
-- DeepCopy of an NpuNodePolicy: the policy of the model, in a memory of its own.
use accelerator_config_manag.Prelude.{List, ◌++◌, ◌≡◌, refl, ap, ℕ}
use accelerator_config_manag.Api.Meta.{ObjectMeta}
use accelerator_config_manag.Api.Npu as Api
use accelerator_config_manag.DeepCopy.Memory.{
  Ref, Copy, no_places, places_ref, places_list, places_dict, read_ref, read_list, read_dict,
  to_map, to_slice,
}
use accelerator_config_manag.DeepCopy.Memory.Laws.{
  IsDeep, Between, Apart, Between-Apart, plain-IsDeep, ref-IsDeep, list-IsDeep, dict-IsDeep,
  parts-IsDeep, both-IsDeep,
}
use accelerator_config_manag.DeepCopy.Npu.{
  VnpuConfigSpecSlice, VnpuConfigSpec, NpuNodePolicySpec, DeviceStatus, NpuNodeStatus,
  NpuNodePolicyStatus, NpuNodePolicy, copy_vnpu_config_spec_slice, copy_vnpu_config_spec,
  copy_npu_node_policy_spec, copy_device_status, copy_npu_node_status, copy_npu_node_policy_status,
  copy_npu_node_policy, deep_copy_npu_node_policy,
}

abbrev read_slice : VnpuConfigSpecSlice → Api.VnpuConfigSpecSlice
read_slice s = record {
  device_filter = to_slice (read_ref (λ a. a) s.device_filter);
  devices = to_slice (read_ref (λ a. a) s.devices);
  vnpu_devices = to_map (read_ref (λ a. a) s.vnpu_devices);
}

abbrev slice_places : VnpuConfigSpecSlice → List ℕ
slice_places s =
    places_ref no_places s.device_filter
    ++ (places_ref no_places s.devices ++ places_ref no_places s.vnpu_devices)

slice-IsDeep : IsDeep read_slice slice_places copy_vnpu_config_spec_slice
slice-IsDeep =
    parts-IsDeep
      (both-IsDeep (ref-IsDeep plain-IsDeep)
        (both-IsDeep (ref-IsDeep plain-IsDeep) (ref-IsDeep plain-IsDeep)))
      (λ s. (s.device_filter, (s.devices, s.vnpu_devices))) read_slice copy_vnpu_config_spec_slice
      (λ s n. refl) (λ s n. refl)
      (λ s n e.
        ap
          (λ v. record {
            device_filter = to_slice v.0;
            devices = to_slice v.1.0;
            vnpu_devices = to_map v.1.1;
          })
          e)

abbrev read_vnpu : VnpuConfigSpec → Api.VnpuConfigSpec
read_vnpu s = record { config_slice = to_slice (read_ref (read_list read_slice) s.config_slice) }

abbrev vnpu_places : VnpuConfigSpec → List ℕ
vnpu_places s = places_ref (places_list slice_places) s.config_slice

vnpu-IsDeep : IsDeep read_vnpu vnpu_places copy_vnpu_config_spec
vnpu-IsDeep =
    parts-IsDeep (ref-IsDeep (list-IsDeep slice-IsDeep)) (λ s. s.config_slice) read_vnpu
      copy_vnpu_config_spec (λ s n. refl) (λ s n. refl)
      (λ s n e. ap (λ v. record { config_slice = to_slice v }) e)

abbrev read_spec : NpuNodePolicySpec → Api.NpuNodePolicySpec
read_spec s = record {
  node_selector = to_map (read_ref (λ a. a) s.node_selector);
  priority = s.priority;
  mode = s.mode;
  vnpu_config = read_ref read_vnpu s.vnpu_config;
}

abbrev spec_places : NpuNodePolicySpec → List ℕ
spec_places s = places_ref no_places s.node_selector ++ places_ref vnpu_places s.vnpu_config

spec-IsDeep : IsDeep read_spec spec_places copy_npu_node_policy_spec
spec-IsDeep =
    parts-IsDeep (both-IsDeep (ref-IsDeep plain-IsDeep) (ref-IsDeep vnpu-IsDeep))
      (λ s. (s.node_selector, s.vnpu_config)) read_spec copy_npu_node_policy_spec (λ s n. refl)
      (λ s n. refl)
      (λ s n e.
        ap
          (λ v. record {
            node_selector = to_map v.0;
            priority = s.priority;
            mode = s.mode;
            vnpu_config = v.1;
          })
          e)

abbrev read_device : DeviceStatus → Api.DeviceStatus
read_device s = record {
  card_id = s.card_id;
  health = s.health;
  vnpu_statuses = read_ref (λ a. a) s.vnpu_statuses;
}

abbrev device_places : DeviceStatus → List ℕ
device_places s = places_ref no_places s.vnpu_statuses

device-IsDeep : IsDeep read_device device_places copy_device_status
device-IsDeep =
    parts-IsDeep (ref-IsDeep plain-IsDeep) (λ s. s.vnpu_statuses) read_device copy_device_status
      (λ s n. refl) (λ s n. refl)
      (λ s n e. ap (λ v. record { card_id = s.card_id; health = s.health; vnpu_statuses = v }) e)

abbrev read_status : NpuNodeStatus → Api.NpuNodeStatus
read_status s = record {
  sync_status = s.sync_status;
  available_templates = to_map (read_ref (λ a. a) s.available_templates);
  device_statuses = read_ref (read_list read_device) s.device_statuses;
}

abbrev status_places : NpuNodeStatus → List ℕ
status_places s =
    places_ref no_places s.available_templates
    ++ places_ref (places_list device_places) s.device_statuses

status-IsDeep : IsDeep read_status status_places copy_npu_node_status
status-IsDeep =
    parts-IsDeep (both-IsDeep (ref-IsDeep plain-IsDeep) (ref-IsDeep (list-IsDeep device-IsDeep)))
      (λ s. (s.available_templates, s.device_statuses)) read_status copy_npu_node_status
      (λ s n. refl) (λ s n. refl)
      (λ s n e.
        ap
          (λ v. record {
            sync_status = s.sync_status;
            available_templates = to_map v.0;
            device_statuses = v.1;
          })
          e)

abbrev read_policy_status : NpuNodePolicyStatus → Api.NpuNodePolicyStatus
read_policy_status s = record { nodes = to_map (read_ref (read_dict read_status) s.nodes) }

abbrev policy_status_places : NpuNodePolicyStatus → List ℕ
policy_status_places s = places_ref (places_dict status_places) s.nodes

policy_status-IsDeep : IsDeep read_policy_status policy_status_places copy_npu_node_policy_status
policy_status-IsDeep =
    parts-IsDeep (ref-IsDeep (dict-IsDeep status-IsDeep)) (λ s. s.nodes) read_policy_status
      copy_npu_node_policy_status (λ s n. refl) (λ s n. refl)
      (λ s n e. ap (λ v. record { nodes = to_map v }) e)

module _ {Meta : Type 0} {read_meta : Meta → ObjectMeta} {meta_places : Meta → List ℕ}
    {copy_meta : Copy Meta} (meta-IsDeep : IsDeep read_meta meta_places copy_meta) where
  -- The policy of the model, wherever its parts are.
  abbrev pub read_policy : NpuNodePolicy Meta → Api.NpuNodePolicy
  read_policy p = record {
    metadata = read_meta p.metadata;
    spec = read_spec p.spec;
    status = read_policy_status p.status;
  }

  -- All places that the policy reaches.
  abbrev pub policy_places : NpuNodePolicy Meta → List ℕ
  policy_places p = meta_places p.metadata ++ (spec_places p.spec ++ policy_status_places p.status)

  policy-IsDeep : IsDeep read_policy policy_places (copy_npu_node_policy copy_meta)
  unfolding copy_npu_node_policy
  policy-IsDeep =
      parts-IsDeep (both-IsDeep meta-IsDeep (both-IsDeep spec-IsDeep policy_status-IsDeep))
        (λ p. (p.metadata, (p.spec, p.status))) read_policy (copy_npu_node_policy copy_meta)
        (λ p n. refl) (λ p n. refl)
        (λ p n e. ap (λ v. record { metadata = v.0; spec = v.1.0; status = v.1.1 }) e)

  -- The metadata are copied deeply, and all places of an NpuNodePolicy are taken. Then the copy that
  -- DeepCopy makes of it reads as the same policy, nil included, and neither the copy itself nor any
  -- pointer, map or slice in it stands at a place that the original reaches, so that no write
  -- through the one is seen through the other.
  pub deep_copy_npu_node_policy_lem :
      (p : Ref (NpuNodePolicy Meta)) (n : ℕ)
      → Between 0 n (places_ref policy_places p)
      → (read_ref read_policy (deep_copy_npu_node_policy copy_meta p n).0 ≡ read_ref read_policy p)
        × Apart
            (places_ref policy_places (deep_copy_npu_node_policy copy_meta p n).0)
            (places_ref policy_places p)
  unfolding deep_copy_npu_node_policy
  deep_copy_npu_node_policy_lem p n taken =
      let deep = ref-IsDeep policy-IsDeep in
      (deep.same p n, Between-Apart n _ _ _ (deep.fresh p n) taken)
