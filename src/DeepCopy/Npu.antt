-- ===== src/DeepCopy/Npu.antt =====
-- The copies of an NpuNodePolicy and its parts: DeepCopyInto of each type, on records whose pointers,
-- maps and slices have places. DeepCopy of a type is `copy_ref` of these.
pub mod Laws
use accelerator_config_manag.Prelude.{String, Option, none, some, List, [], ◌∷◌, ◌++◌, ℕ}
use accelerator_config_manag.Prelude.Int.{ℤ}
use accelerator_config_manag.Prelude.Dict.{Dict}
use accelerator_config_manag.Api.Npu.{VnpuStatus, VTemplate}
use accelerator_config_manag.DeepCopy.Memory.{Ref, Copy, plain, copy_ref, copy_list, copy_dict}

pub record VnpuConfigSpecSlice : Type 0 where
  pub device_filter : Ref (List String)
  pub devices : Ref (List String)
  pub vnpu_devices : Ref (Dict String)

abbrev pub copy_vnpu_config_spec_slice : Copy VnpuConfigSpecSlice
copy_vnpu_config_spec_slice s n =
    let (device_filter, n1) = copy_ref plain s.device_filter n in
    let (devices, n2) = copy_ref plain s.devices n1 in
    let (vnpu_devices, n3) = copy_ref plain s.vnpu_devices n2 in
    (record { device_filter = device_filter; devices = devices; vnpu_devices = vnpu_devices }, n3)

pub record VnpuConfigSpec : Type 0 where
  pub config_slice : Ref (List VnpuConfigSpecSlice)

abbrev pub copy_vnpu_config_spec : Copy VnpuConfigSpec
copy_vnpu_config_spec s n =
    let (config_slice, n1) = copy_ref (copy_list copy_vnpu_config_spec_slice) s.config_slice n in
    (record { config_slice = config_slice }, n1)

pub record NpuNodePolicySpec : Type 0 where
  pub node_selector : Ref (Dict String)
  pub priority : ℤ
  pub mode : String
  pub vnpu_config : Ref VnpuConfigSpec

abbrev pub copy_npu_node_policy_spec : Copy NpuNodePolicySpec
copy_npu_node_policy_spec s n =
    let (node_selector, n1) = copy_ref plain s.node_selector n in
    let (vnpu, n2) = copy_ref copy_vnpu_config_spec s.vnpu_config n1 in
    (record s { node_selector = node_selector; vnpu_config = vnpu }, n2)

pub record DeviceStatus : Type 0 where
  pub card_id : ℤ
  pub health : String
  pub vnpu_statuses : Ref (List VnpuStatus)

abbrev pub copy_device_status : Copy DeviceStatus
copy_device_status s n =
    let (vnpu_statuses, n1) = copy_ref plain s.vnpu_statuses n in
    (record s { vnpu_statuses = vnpu_statuses }, n1)

pub record NpuNodeStatus : Type 0 where
  pub sync_status : String
  pub available_templates : Ref (Dict VTemplate)
  pub device_statuses : Ref (List DeviceStatus)

abbrev pub copy_npu_node_status : Copy NpuNodeStatus
copy_npu_node_status s n =
    let (templates, n1) = copy_ref plain s.available_templates n in
    let (devices, n2) = copy_ref (copy_list copy_device_status) s.device_statuses n1 in
    (record s { available_templates = templates; device_statuses = devices }, n2)

pub record NpuNodePolicyStatus : Type 0 where
  pub nodes : Ref (Dict NpuNodeStatus)

abbrev pub copy_npu_node_policy_status : Copy NpuNodePolicyStatus
copy_npu_node_policy_status s n =
    let (nodes, n1) = copy_ref (copy_dict copy_npu_node_status) s.nodes n in
    (record { nodes = nodes }, n1)

-- `Meta` is `metav1.ObjectMeta`.
pub record NpuNodePolicy (Meta : Type 0) : Type 0 where
  pub metadata : Meta
  pub spec : NpuNodePolicySpec
  pub status : NpuNodePolicyStatus

-- `copy_meta` is DeepCopyInto of `metav1.ObjectMeta`.
unfoldable pub copy_npu_node_policy : {Meta : Type 0} → Copy Meta → Copy (NpuNodePolicy Meta)
copy_npu_node_policy copy_meta p n =
    let (metadata, n1) = copy_meta p.metadata n in
    let (spec, n2) = copy_npu_node_policy_spec p.spec n1 in
    let (status, n3) = copy_npu_node_policy_status p.status n2 in
    (record { metadata = metadata; spec = spec; status = status }, n3)

-- `DeepCopy` of a policy: nil, or a new policy.
unfoldable pub deep_copy_npu_node_policy :
    {Meta : Type 0} → Copy Meta → Copy (Ref (NpuNodePolicy Meta))
unfolding copy_npu_node_policy
deep_copy_npu_node_policy copy_meta = copy_ref (copy_npu_node_policy copy_meta)
