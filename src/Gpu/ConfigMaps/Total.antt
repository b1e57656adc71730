-- ===== src/Gpu/ConfigMaps/Total.antt =====
-- Setting and removing the configurations of the device plugin does not panic on ConfigMaps that have data.
use mathlib.Core.Bool.{decide}
use accelerator_config_manag.Prelude.{
  String, ◌<>◌, true, false, not, ◌&&◌, none, some, is_some, ◌≡◌, ◌==◌, refl, Bool-cases, inl, inr,
  if◌then◌else◌,
}
use accelerator_config_manag.Prelude.GoMap.{
  GoMap, nil_map, made, get, remove, is_made, assign_made, entries,
}
use accelerator_config_manag.Prelude.Eff.{pure, Ends, if-Ends, Anything}
use accelerator_config_manag.Api.Foreign.{Foreign}
use accelerator_config_manag.Api.Meta.{
  Node, NamespacedName, ConfigMap, Error, Fallible, done, failed, Fallible-cases,
}
use accelerator_config_manag.Api.Config.{Spec, Config-discrete}
use accelerator_config_manag.Api.Gpu.{GpuNodePolicy}
use accelerator_config_manag.Labels.{text_of}
use accelerator_config_manag.Common.Text.{find_prefix_key, compute_hash}
use accelerator_config_manag.Gpu.Names.{
  device_plugin_default_config_map_name, mig_parted_default_config_map_name,
}
use accelerator_config_manag.Gpu.Controls.{GpuModeManager}
use accelerator_config_manag.Gpu.External.{Library, GpuClient}
use accelerator_config_manag.Gpu.ConfigMaps.{
  config_prefix, patched, is_mig_none_strategy, device_plugin_config, write_device_plugin_config,
  change_device_plugin_config, add_device_plugin_config_map_data, drop_device_plugin_config,
  remove_device_plugin_config_map_data,
}
use accelerator_config_manag.Gpu.ConfigMaps.Mig.{config_yaml}

pub remove-is_made {ℓ} :
    {V : Type ℓ} (k : String) (g : GoMap V) → is_made g ≡ true → is_made (remove k g) ≡ true
remove-is_made k nil_map h = h
remove-is_made k (made d) h = refl

-- The ConfigMap has data, and the configuration in its `config.yaml`, if it can be read, has the map
-- `mig-configs`.
pub record HasData {F : Foreign} (lib : Library F) (config_map : ConfigMap) : Type 0 where
  pub has_entries : is_made config_map.entries ≡ true
  pub has_configs :
      (config : Spec F)
      → lib.unmarshal_spec (text_of (get config_yaml config_map.entries)) ≡ (config, none)
      → is_made config.mig_configs ≡ true

-- Where `Plugin` holds of the cluster, the ConfigMap of the device plugin has data, with whatever keys,
-- and where `Mig` holds, so has that of mig-parted, with a `mig-configs` in its `config.yaml`.
pub record ReadsData {F : Foreign} {S : Type 0} (lib : Library F) (client : GpuClient F S)
    (namespace : String) (Plugin Mig : S → Type 0) : Type 0 where
  pub plugin_data :
      (s : S) (config_map : ConfigMap)
      → Plugin s
      → (client.get_config_map
          (record { namespace = namespace; name = device_plugin_default_config_map_name })
          s).0
        ≡ done config_map
      → is_made config_map.entries ≡ true
  pub mig_data :
      (s : S) (config_map : ConfigMap)
      → Mig s
      → (client.get_config_map
          (record { namespace = namespace; name = mig_parted_default_config_map_name })
          s).0
        ≡ done config_map
      → HasData lib config_map

-- Calls that are not about a ConfigMap leave both as they are; a read of a ConfigMap, and a patch of
-- another one than mig-parted's, leave that of mig-parted as it is.
pub record KeepsData {F : Foreign} {S : Type 0} (client : GpuClient F S) (Plugin Mig : S → Type 0)
    : Type 0 where
  pub got_policy :
      (req : NamespacedName) (s : S)
      → Plugin s
      → Mig s
      → Plugin (client.get_policy req s).1 × Mig (client.get_policy req s).1
  pub updated_policy :
      (policy : GpuNodePolicy F) (s : S)
      → Plugin s
      → Mig s
      → Plugin (client.update_policy policy s).1 × Mig (client.update_policy policy s).1
  pub listed_nodes :
      (selector : GoMap String) (s : S)
      → Plugin s
      → Mig s
      → Plugin (client.nodes.list_nodes selector s).1 × Mig (client.nodes.list_nodes selector s).1
  pub patched_node :
      (base node : Node) (s : S) → Mig s → Mig (client.nodes.patch_node base node s).1
  pub named :
      (req : NamespacedName) (s : S) (config_map : ConfigMap)
      → (client.get_config_map req s).0 ≡ done config_map
      → config_map.name ≡ req.name
  pub got_config_map : (req : NamespacedName) (s : S) → Mig s → Mig (client.get_config_map req s).1
  pub patched_config_map :
      (base wanted : ConfigMap) (s : S)
      → (base.name == mig_parted_default_config_map_name) ≡ false
      → Mig s
      → Mig (client.patch_config_map base wanted s).1

-- What a change of the configurations leaves of a manager.
abbrev pub Kept :
    {F : Foreign} {S : Type 0} → GpuModeManager F → GpuModeManager F × Error → S → Type 0
Kept m (m', err) s =
    (m'.instance_ ≡ m.instance_)
    × (m'.workload_config_name ≡ m.workload_config_name)
    × (m'.mode ≡ m.mode)

module _ {F : Foreign} {S : Type 0} (lib : Library F) (client : GpuClient F S) where
  pub patched-Kept :
      (m failure success : GpuModeManager F) (text : String) (err : Error) (s : S)
      → Kept m (failure, none) s
      → Kept m (success, none) s
      → Kept m (patched failure success text err) s
  patched-Kept m failure success text none s h k = k
  patched-Kept m failure success text (some e) s h k = h

  write_device_plugin_config-Ends :
      (origin : ConfigMap) (m : GpuModeManager F) (raw : String × Error) (s : S)
      → is_made origin.entries ≡ true
      → Ends (Kept m) (write_device_plugin_config lib client origin m raw s)
  unfolding write_device_plugin_config
  write_device_plugin_config-Ends origin m (raw, some e) s h = (refl, refl, refl)
  write_device_plugin_config-Ends origin m (raw, none) s h =
      let name = m.managed_by <> ("-" <> compute_hash lib.md5_sum raw) in
      let (d, e) =
        assign_made name raw (remove m.device_plugin_config_name origin.entries)
          (remove-is_made m.device_plugin_config_name origin.entries h) in
      rw e (patched-Kept m _ _ _ _ s (refl, refl, refl) (refl, refl, refl))

  change_device_plugin_config-Ends :
      (m : GpuModeManager F) (origin : ConfigMap) (s : S)
      → is_made origin.entries ≡ true
      → Ends (Kept m) (change_device_plugin_config lib client m origin s)
  unfolding change_device_plugin_config
  change_device_plugin_config-Ends m origin s h =
      let name = find_prefix_key (entries origin.entries) (config_prefix m.managed_by) in
      let m' : GpuModeManager F = record m { device_plugin_config_name = name } in
      let raw = get name origin.entries in
      let write =
        write_device_plugin_config lib client origin m'
          (lib.marshal_config (device_plugin_config lib m)) in
      let same =
        decide
          (Config-discrete F (lib.unmarshal_config (text_of raw)).0 (device_plugin_config lib m)) in
      if-Ends (Kept m)
        (not (is_some raw)
          && not (is_some m.instance_.spec.time_slicing_config)
          && is_mig_none_strategy m.instance_.spec.mig_config)
        (pure (m', none)) (if same then pure (m', none) else write) s (λ e. (refl, refl, refl))
        (λ e.
          if-Ends (Kept m) same (pure (m', none))
            (write_device_plugin_config lib client origin m'
              (lib.marshal_config (device_plugin_config lib m)))
            s (λ e'. (refl, refl, refl))
            (λ e'.
              write_device_plugin_config-Ends origin m'
                (lib.marshal_config (device_plugin_config lib m)) s h))

  pub add_device_plugin_config_map_data-Ends :
      (namespace : String) (m : GpuModeManager F) (s : S)
      → ((config_map : ConfigMap)
          → (client.get_config_map
              (record { namespace = namespace; name = device_plugin_default_config_map_name })
              s).0
            ≡ done config_map
          → is_made config_map.entries ≡ true)
      → Ends (Kept m) (add_device_plugin_config_map_data lib client namespace m s)
  unfolding add_device_plugin_config_map_data
  add_device_plugin_config_map_data-Ends namespace m s h =
      elim (Fallible-cases
        (client.get_config_map
          (record { namespace = namespace; name = device_plugin_default_config_map_name }) s).0) [
            | inl (origin, e) ↦ rw e (change_device_plugin_config-Ends m origin _ (h origin e))
            | inr (x, e) ↦ rw e (refl, refl, refl)
          ]

  -- Removing the configurations.
  drop_device_plugin_config-Ends :
      (policy : GpuNodePolicy F) (answer : Fallible ConfigMap) (s : S)
      → Ends Anything (drop_device_plugin_config client policy answer s)
  unfolding drop_device_plugin_config
  drop_device_plugin_config-Ends policy (failed e) s = tt
  drop_device_plugin_config-Ends policy (done config_map) s =
      elim (Bool-cases (
        is_some (
          get (find_prefix_key (entries config_map.entries) (config_prefix policy.metadata.name))
            config_map.entries))) [ inl e ↦ rw e tt | inr e ↦ rw e tt ]

  pub remove_device_plugin_config_map_data-Ends :
      (namespace : String) (policy : GpuNodePolicy F) (s : S)
      → Ends Anything (remove_device_plugin_config_map_data client namespace policy s)
  unfolding remove_device_plugin_config_map_data
  remove_device_plugin_config_map_data-Ends namespace policy s =
      drop_device_plugin_config-Ends policy _ _
