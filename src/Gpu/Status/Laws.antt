-- ===== src/Gpu/Status/Laws.antt =====
-- What the status of a GPU policy says of a node after a reconciliation has initialised it.
use accelerator_config_manag.Prelude.{
  String, Bool, true, false, ◌||◌, Option, none, some, List, [], ◌∷◌, ◌++◌, ◌==◌, ◌≡◌, refl, ◌∙◌,
  arith, eq_iff, if◌then◌else◌, Bool-cases, inl, inr,
}
use accelerator_config_manag.Prelude.Dict.{Dict, lookup, insert, lookup-insert}
use accelerator_config_manag.Prelude.GoMap.{GoMap, nil_map, made, get, entries, lookup-entries}
use accelerator_config_manag.Prelude.Run.{ok}
use accelerator_config_manag.Api.Foreign.{Foreign}
use accelerator_config_manag.Api.Meta.{Node}
use accelerator_config_manag.Api.Gpu.{GpuNodeStatus, GpuNodePolicy}
use accelerator_config_manag.Api.Gpu.DeviceMode
use accelerator_config_manag.Common.Filter.Laws.{named}
use accelerator_config_manag.Gpu.Controls.{GpuModeManager, is_device_plugin_config_updated}
use accelerator_config_manag.Gpu.Status.{
  mode_status, status_or_new, update_gpu_node_policy_status, update_statuses, make_nodes, need_sync,
  init_gpu_node_policy_status,
}

-- The modes that a node's status speaks of.
abbrev mode_if {ℓ} : {A : Type ℓ} → Option A → String → List String
mode_if none mode = []
mode_if (some a) mode = mode ∷ []

pub status_modes : GpuNodeStatus → List String
status_modes s =
    mode_if s.time_slicing_mode DeviceMode.time_slicing
    ++ (mode_if s.mig_mode DeviceMode.mig
        ++ (mode_if s.default_mode DeviceMode.default
            ++ (mode_if s.vcuda_mode DeviceMode.vcuda
                ++ mode_if s.pass_through_mode DeviceMode.pass_through)))

-- The five modes that the CRD admits.
unfoldable pub is_gpu_mode : String → Bool
is_gpu_mode mode =
    mode == DeviceMode.time_slicing
    || mode == DeviceMode.mig
    || mode == DeviceMode.default
    || mode == DeviceMode.vcuda
    || mode == DeviceMode.pass_through

status_modes-mode_status :
    (mode : String) (dp mig : Option Bool) (s : GpuNodeStatus)
    → is_gpu_mode mode ≡ true
    → status_modes (mode_status mode dp mig s) ≡ mode ∷ []
unfolding status_modes mode_status is_gpu_mode
status_modes-mode_status mode dp mig s h = ground (
  arith,
  eq_iff mode DeviceMode.time_slicing,
  eq_iff mode DeviceMode.mig,
  eq_iff mode DeviceMode.default,
  eq_iff mode DeviceMode.vcuda,
  eq_iff mode DeviceMode.pass_through,
)

mode_status_idem :
    (mode : String) (dp mig : Option Bool) (s : GpuNodeStatus)
    → mode_status mode dp mig (mode_status mode dp mig s) ≡ mode_status mode dp mig s
unfolding mode_status
mode_status_idem mode dp mig s = elim (Bool-cases (mode == DeviceMode.time_slicing)) [
  | inl e ↦ rw e (ground arith)
  | inr e ↦ elim (Bool-cases (mode == DeviceMode.mig)) [
    | inl f ↦ rw (e, f) (ground arith)
    | inr f ↦ elim (Bool-cases (mode == DeviceMode.default)) [
      | inl g ↦ rw (e, f, g) (ground arith)
      | inr g ↦ elim (Bool-cases (mode == DeviceMode.vcuda)) [
        | inl h ↦ rw (e, f, g, h) (ground arith)
        | inr h ↦ rw (e, f, g, h) (ground arith)
      ]
    ]
  ]
]

-- The policy after a write to the status of one node.
abbrev pub with_nodes : {F : Foreign} → GpuNodePolicy F → Dict GpuNodeStatus → GpuNodePolicy F
with_nodes p d = record p { status = record { nodes = made d } }

-- The entries after the loop of InitGpuNodePolicyStatus.
initialised :
    String → Option Bool → Option Bool → List Node → Dict GpuNodeStatus → Dict GpuNodeStatus
initialised mode dp mig [] d = d
initialised mode dp mig (node ∷ nodes) d =
    initialised mode dp mig nodes
      (insert node.name (mode_status mode dp mig (status_or_new (lookup node.name d))) d)

lookup-initialised :
    (mode : String) (dp mig : Option Bool) (nodes : List Node) (d : Dict GpuNodeStatus) (k : String)
    → lookup k (initialised mode dp mig nodes d) ≡ (
        if named k nodes
        then some (mode_status mode dp mig (status_or_new (lookup k d)))
        else lookup k d)
unfolding initialised named
lookup-initialised mode dp mig [] d k = refl
lookup-initialised mode dp mig (node ∷ nodes) d k =
    lookup-initialised mode dp mig nodes _ k
    ∙ rw lookup-insert (
        ground
          (arith, eq_iff node.name k, mode_status_idem mode dp mig (status_or_new (lookup k d))))

module _ {F : Foreign} (dp mig : Option Bool) where
  update_statuses_parts :
      (p : GpuNodePolicy F) (nodes : List Node) (d : Dict GpuNodeStatus)
      → update_statuses (with_nodes p d) nodes dp mig
        ≡ ok (with_nodes p (initialised p.spec.mode dp mig nodes d))
  unfolding update_statuses update_gpu_node_policy_status initialised
  update_statuses_parts p [] d = refl
  update_statuses_parts p (node ∷ nodes) d = update_statuses_parts p nodes _

make_nodes-made : (g : GoMap GpuNodeStatus) → make_nodes g ≡ made (entries g)
make_nodes-made nil_map = refl
make_nodes-made (made d) = refl

module _ {F : Foreign} (m : GpuModeManager F) (nodes : List Node) where
  abbrev old : Dict GpuNodeStatus
  old = entries m.instance_.status.nodes

  abbrev needs : Bool → Option Bool
  needs = need_sync

  abbrev after : Dict GpuNodeStatus
  after =
      initialised m.instance_.spec.mode (need_sync m.device_plugin_config_updated)
        (need_sync m.mig_config_updated) nodes old

  init_parts :
      init_gpu_node_policy_status m nodes
      ≡ ok (record m { instance_ = with_nodes m.instance_ after })
  unfolding init_gpu_node_policy_status
  init_parts = rw (make_nodes-made m.instance_.status.nodes, update_statuses_parts)

  pub init_made :
      (d : Dict GpuNodeStatus) × (init_gpu_node_policy_status m nodes
        ≡ ok (record m { instance_ = with_nodes m.instance_ d }))
  init_made = (after, init_parts)

  -- InitGpuNodePolicyStatus does not panic, also where the policy has no status yet. Afterwards the
  -- status of a claimed node speaks of the policy's mode and of no other, if that is one of the five
  -- of the CRD. The statuses of other nodes stay, and so do the other parts of the manager.
  pub init_gpu_node_policy_status_lem :
      is_gpu_mode m.instance_.spec.mode ≡ true
      → (d : Dict GpuNodeStatus) × (init_gpu_node_policy_status m nodes
          ≡ ok (record m { instance_ = with_nodes m.instance_ d }))
        × ((k : String)
            → named k nodes ≡ true
            → (s : GpuNodeStatus) × (lookup k d ≡ some s)
              × (status_modes s ≡ m.instance_.spec.mode ∷ []))
        × ((k : String) → named k nodes ≡ false → lookup k d ≡ get k m.instance_.status.nodes)
  init_gpu_node_policy_status_lem h = (
    after,
    init_parts,
    (λ k n. (
      mode_status m.instance_.spec.mode (needs m.device_plugin_config_updated)
          (needs m.mig_config_updated) (status_or_new (lookup k old)),
      rw (lookup-initialised, n) refl,
      status_modes-mode_status _ _ _ (status_or_new (lookup k old)) h,
    )),
    (λ k n. rw (lookup-initialised, n) (lookup-entries k m.instance_.status.nodes)),
  )

  -- This reconciliation has written a configuration of the device plugin, and the node is claimed.
  -- Then after InitGpuNodePolicyStatus isDevicePluginConfigUpdated does not panic on the node, and it
  -- is true exactly in the two modes that have such a configuration.
  pub init-is_device_plugin_config_updated :
      (k : String)
      → named k nodes ≡ true
      → m.device_plugin_config_updated ≡ true
      → (m' : GpuModeManager F) × (init_gpu_node_policy_status m nodes ≡ ok m')
        × (is_device_plugin_config_updated m' k
            ≡ ok (
                m.instance_.spec.mode == DeviceMode.time_slicing
                || m.instance_.spec.mode == DeviceMode.mig))
  unfolding is_device_plugin_config_updated mode_status
  init-is_device_plugin_config_updated k n u = (
    record m { instance_ = with_nodes m.instance_ after },
    init_parts,
    rw (is_device_plugin_config_updated, lookup-initialised, n, u) (ground arith),
  )
