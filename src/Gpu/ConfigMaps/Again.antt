-- ===== src/Gpu/ConfigMaps/Again.antt =====
-- Two runs of addDevicePluginConfigMapData for one policy: what the first writes, the second finds.
use mathlib.Core.Bool.{decide, decide_iff}
use accelerator_config_manag.Prelude.{
  String, Bool, true, false, not, ◌&&◌, ◌||◌, ◌==◌, Option, none, some, is_some, ◌≡◌, refl, ◌∙◌,
  arith, eq_refl, if◌then◌else◌, starts_with,
}
use accelerator_config_manag.Prelude.Dict.{Dict, lookup}
use accelerator_config_manag.Prelude.GoMap.{made}
use accelerator_config_manag.Prelude.Run.{ok}
use accelerator_config_manag.Api.Foreign.{Foreign}
use accelerator_config_manag.Api.Meta.{done}
use accelerator_config_manag.Api.Config.{Config-discrete}
use accelerator_config_manag.Labels.{text_of}
use accelerator_config_manag.Common.Text.{find_prefix_key}
use accelerator_config_manag.Gpu.Names.{device_plugin_default_config_map_name}
use accelerator_config_manag.Gpu.Controls.{GpuModeManager}
use accelerator_config_manag.Gpu.External.{Library, GpuClient}
use accelerator_config_manag.Gpu.ConfigMaps.{
  config_prefix, is_mig_none_strategy, device_plugin_config, write_device_plugin_config,
  change_device_plugin_config, add_device_plugin_config_map_data,
}
use accelerator_config_manag.Gpu.ConfigMaps.Replaced.{
  IsOnlyKey, not_decided, config_name, replaced, named-prefix, lookup-replaced, own_key, other_key,
  found_again,
}

module _ {F : Foreign} {S : Type 0} (lib : Library F) (client : GpuClient F S) where
  -- The manager asks for a configuration of its own.
  abbrev pub asks : GpuModeManager F → Bool
  asks m =
      is_some m.instance_.spec.time_slicing_config
      || not (is_mig_none_strategy m.instance_.spec.mig_config)

  -- The configuration in the data is the one that the manager wants.
  abbrev pub IsConfigured : GpuModeManager F → Option String → Type 0
  IsConfigured m raw = (lib.unmarshal_config (text_of raw)).0 ≡ device_plugin_config lib m

  change-writes :
      (m : GpuModeManager F) (name raw : String) (d : Dict String) (s t : S)
      → asks m ≡ true
      → lib.marshal_config (device_plugin_config lib m) ≡ (raw, none)
      → ¬ IsConfigured m (lookup (find_prefix_key d (config_prefix m.managed_by)) d)
      → client.patch_config_map
          (record { name = name; entries = made d })
          (record { name = name; entries = made (replaced lib m raw d) })
          s
        ≡ (none, t)
      → change_device_plugin_config lib client m (record { name = name; entries = made d }) s ≡ (
        ok (
          record m {
            device_plugin_config_name = config_name lib m raw;
            device_plugin_config_updated = true;
          },
          none,
        ),
        t,
      )
  unfolding change_device_plugin_config write_device_plugin_config
  change-writes m name raw d s t wants marshalled differs patched =
      let old = lookup (find_prefix_key d (config_prefix m.managed_by)) d in
      let skip : (not (is_some old)
            && not (is_some m.instance_.spec.time_slicing_config)
            && is_mig_none_strategy m.instance_.spec.mig_config)
          ≡ false =
        ground arith in
      let same : decide
            (Config-discrete F (lib.unmarshal_config (text_of old)).0 (device_plugin_config lib m))
          ≡ false =
        not_decided
          (Config-discrete F (lib.unmarshal_config (text_of old)).0 (device_plugin_config lib m))
          differs in
      rw (skip, same, marshalled, patched) refl

  change-keeps :
      (m : GpuModeManager F) (name key raw : String) (d : Dict String) (s : S)
      → find_prefix_key d (config_prefix m.managed_by) ≡ key
      → lookup key d ≡ some raw
      → IsConfigured m (some raw)
      → change_device_plugin_config lib client m (record { name = name; entries = made d }) s
        ≡ (ok (record m { device_plugin_config_name = key }, none), s)
  unfolding change_device_plugin_config
  change-keeps m name key raw d s found there configured =
      let same : decide
            (Config-discrete F (lib.unmarshal_config raw).0 (device_plugin_config lib m))
          ≡ true =
        (decide_iff (Config-discrete F (lib.unmarshal_config raw).0 (device_plugin_config lib m))).1
          configured in
      rw (found, there, same) refl

  -- The policy asks for a configuration of the device plugin, the ConfigMap has at most one key that
  -- starts with the policy's name and a dash, and what is there is another configuration; YAML can
  -- write the new one and read it again, and the patch of the ConfigMap succeeds. Then
  -- addDevicePluginConfigMapData succeeds. It changes the data at two keys: it removes the one that
  -- FindPrefixKey finds for the policy's name and a dash, and sets that of the new configuration. So
  -- the new configuration is the only one whose key starts so, and the keys that do not start so keep
  -- what they had, but for an empty key; but the key that is removed need not be the policy's own:
  -- that of a policy `a-b` starts with `a-` too. A second run that reads these data succeeds with the
  -- same key and without a call after that.
  pub add_device_plugin_config_map_data-again :
      (namespace name raw : String) (m : GpuModeManager F) (d : Dict String) (s s1 s2 t t1 : S)
      → asks m ≡ true
      → IsOnlyKey (config_prefix m.managed_by) d
      → ¬ IsConfigured m (lookup (find_prefix_key d (config_prefix m.managed_by)) d)
      → lib.marshal_config (device_plugin_config lib m) ≡ (raw, none)
      → IsConfigured m (some raw)
      → client.get_config_map
          (record { namespace = namespace; name = device_plugin_default_config_map_name })
          s
        ≡ (done (record { name = name; entries = made d }), s1)
      → client.patch_config_map
          (record { name = name; entries = made d })
          (record { name = name; entries = made (replaced lib m raw d) })
          s1
        ≡ (none, s2)
      → client.get_config_map
          (record { namespace = namespace; name = device_plugin_default_config_map_name })
          t
        ≡ (done (record { name = name; entries = made (replaced lib m raw d) }), t1)
      → (add_device_plugin_config_map_data lib client namespace m s ≡ (
        ok (
          record m {
            device_plugin_config_name = config_name lib m raw;
            device_plugin_config_updated = true;
          },
          none,
        ),
        s2,
      ))
        × ((k : String)
            → lookup k (replaced lib m raw d) ≡ (
                if config_name lib m raw == k
                then some raw
                else if find_prefix_key d (config_prefix m.managed_by) == k
                then none
                else lookup k d))
        × ((k : String)
            → starts_with k (config_prefix m.managed_by) ≡ true
            → lookup k (replaced lib m raw d)
              ≡ (if config_name lib m raw == k then some raw else none))
        × ((k : String)
            → (k == "") ≡ false
            → starts_with k (config_prefix m.managed_by) ≡ false
            → lookup k (replaced lib m raw d) ≡ lookup k d)
        × (add_device_plugin_config_map_data lib client namespace m t
            ≡ (ok (record m { device_plugin_config_name = config_name lib m raw }, none), t1))
  unfolding add_device_plugin_config_map_data
  add_device_plugin_config_map_data-again namespace name raw m d s s1 s2 t t1 wants only differs
        marshalled configured read patched read' =
      (
        rw read (change-writes m name raw d s1 s2 wants marshalled differs patched),
        (λ k. lookup-replaced lib m raw k d),
        (λ k p. own_key lib m raw k d only p),
        (λ k e p. other_key lib m raw k d e p),
        rw read' (
            change-keeps m name (config_name lib m raw) raw (replaced lib m raw d) t1
              (found_again lib m raw d only)
              (own_key lib m raw (config_name lib m raw) d only (named-prefix lib m raw)
                ∙ rw (eq_refl (config_name lib m raw)) refl)
              configured),
      )
