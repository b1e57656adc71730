-- ===== src/DeepCopy/Gpu.antt =====
-- The copies of a GpuNodePolicy and its parts: DeepCopyInto of each type, on records whose pointers,
-- maps and slices have places. DeepCopy of a type is `copy_ref` of these.
pub mod Laws
use accelerator_config_manag.Prelude.{String, Bool, Option, none, some, List, [], ◌∷◌, ◌++◌, ℕ}
use accelerator_config_manag.Prelude.Int.{ℤ}
use accelerator_config_manag.Prelude.Dict.{Dict}
use accelerator_config_manag.Api.Config.{ReplicatedResource}
use accelerator_config_manag.Api.Foreign.{Foreign}
use accelerator_config_manag.Api.Gpu.{
  TimeSlicingModeStatus, MigModeStatus, DefaultModeStatus, GenericModeStatus, VcudaConfigSpec,
}
use accelerator_config_manag.DeepCopy.Memory.{Ref, Copy, plain, copy_ref, copy_list, copy_dict}

pub record GpuNodeStatus : Type 0 where
  pub time_slicing_mode : Ref TimeSlicingModeStatus
  pub mig_mode : Ref MigModeStatus
  pub default_mode : Ref DefaultModeStatus
  pub pass_through_mode : Ref GenericModeStatus
  pub vcuda_mode : Ref GenericModeStatus

abbrev pub copy_gpu_node_status : Copy GpuNodeStatus
copy_gpu_node_status s n =
    let (time_slicing, n1) = copy_ref plain s.time_slicing_mode n in
    let (mig, n2) = copy_ref plain s.mig_mode n1 in
    let (default, n3) = copy_ref plain s.default_mode n2 in
    let (pass_through, n4) = copy_ref plain s.pass_through_mode n3 in
    let (vcuda, n5) = copy_ref plain s.vcuda_mode n4 in
    (
      record {
        time_slicing_mode = time_slicing;
        mig_mode = mig;
        default_mode = default;
        pass_through_mode = pass_through;
        vcuda_mode = vcuda;
      },
      n5,
    )

pub record GpuNodePolicyStatus : Type 0 where
  pub nodes : Ref (Dict GpuNodeStatus)

abbrev pub copy_gpu_node_policy_status : Copy GpuNodePolicyStatus
copy_gpu_node_policy_status s n =
    let (nodes, n1) = copy_ref (copy_dict copy_gpu_node_status) s.nodes n in
    (record { nodes = nodes }, n1)

-- `Entries` is what a `types.MigConfig` of mig-parted, a map, holds.
module _ (F : Foreign) (Entries : Type 0) where
  pub record MigConfigSpecSlice : Type 0 where
    pub device_filter : String
    pub devices : String
    pub mig_devices : Ref Entries

  pub record MigConfigSpec : Type 0 where
    pub strategy : String
    pub config_slice : Ref (List MigConfigSpecSlice)

  pub record TimeSlicingConfigSpec : Type 0 where
    pub rename_by_default : Bool
    pub fail_requests_greater_than_one : Bool
    pub resources : Ref (List (ReplicatedResource F))

  pub record GpuNodePolicySpec : Type 0 where
    pub node_selector : Ref (Dict String)
    pub priority : ℤ
    pub mode : String
    pub vcuda_config : Ref VcudaConfigSpec
    pub time_slicing_config : Ref TimeSlicingConfigSpec
    pub mig_config : Ref MigConfigSpec

  -- `Meta` is `metav1.ObjectMeta`.
  pub record GpuNodePolicy (Meta : Type 0) : Type 0 where
    pub metadata : Meta
    pub spec : GpuNodePolicySpec
    pub status : GpuNodePolicyStatus

module _ {F : Foreign} {Entries : Type 0} where
  abbrev pub copy_mig_config_spec_slice : Copy (MigConfigSpecSlice F Entries)
  copy_mig_config_spec_slice s n =
      let (mig_devices, n1) = copy_ref plain s.mig_devices n in
      (record s { mig_devices = mig_devices }, n1)

  abbrev pub copy_mig_config_spec : Copy (MigConfigSpec F Entries)
  copy_mig_config_spec s n =
      let (config_slice, n1) = copy_ref (copy_list copy_mig_config_spec_slice) s.config_slice n in
      (record s { config_slice = config_slice }, n1)

  abbrev pub copy_time_slicing_config_spec : Copy (TimeSlicingConfigSpec F Entries)
  copy_time_slicing_config_spec s n =
      let (resources, n1) = copy_ref plain s.resources n in (record s { resources = resources }, n1)

  abbrev pub copy_gpu_node_policy_spec : Copy (GpuNodePolicySpec F Entries)
  copy_gpu_node_policy_spec s n =
      let (node_selector, n1) = copy_ref plain s.node_selector n in
      let (vcuda, n2) = copy_ref plain s.vcuda_config n1 in
      let (time_slicing, n3) = copy_ref copy_time_slicing_config_spec s.time_slicing_config n2 in
      let (mig, n4) = copy_ref copy_mig_config_spec s.mig_config n3 in
      (
        record s {
          node_selector = node_selector;
          vcuda_config = vcuda;
          time_slicing_config = time_slicing;
          mig_config = mig;
        },
        n4,
      )

  -- `copy_meta` is DeepCopyInto of `metav1.ObjectMeta`.
  unfoldable pub copy_gpu_node_policy :
      {Meta : Type 0} → Copy Meta → Copy (GpuNodePolicy F Entries Meta)
  copy_gpu_node_policy copy_meta p n =
      let (metadata, n1) = copy_meta p.metadata n in
      let (spec, n2) = copy_gpu_node_policy_spec p.spec n1 in
      let (status, n3) = copy_gpu_node_policy_status p.status n2 in
      (record { metadata = metadata; spec = spec; status = status }, n3)

  -- `DeepCopy` of a policy: nil, or a new policy.
  unfoldable pub deep_copy_gpu_node_policy :
      {Meta : Type 0} → Copy Meta → Copy (Ref (GpuNodePolicy F Entries Meta))
  unfolding copy_gpu_node_policy
  deep_copy_gpu_node_policy copy_meta = copy_ref (copy_gpu_node_policy copy_meta)
