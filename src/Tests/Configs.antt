-- ===== src/Tests/Configs.antt =====
-- The configuration of the device plugin, written once and read again.
use mathlib.Core.Path.{subst}
use accelerator_config_manag.Prelude.{
  String, true, false, none, some, [], ◌∷◌, ◌==◌, ◌≡◌, refl, ap, sym, eq_iff, Bool-cases, inl, inr,
  if◌then◌else◌, starts_with,
}
use accelerator_config_manag.Prelude.Dict.{Dict, lookup, insert, erase}
use accelerator_config_manag.Prelude.GoMap.{made, entries}
use accelerator_config_manag.Prelude.Run.{ok}
use accelerator_config_manag.Api.Meta.{done}
use accelerator_config_manag.Common.Text.{find_prefix_key, compute_hash}
use accelerator_config_manag.Gpu.Controls.{GpuModeManager}
use accelerator_config_manag.Gpu.External.{Library, GpuClient}
use accelerator_config_manag.Gpu.ConfigMaps.{
  device_plugin_config, config_prefix, add_device_plugin_config_map_data,
}
use accelerator_config_manag.Gpu.ConfigMaps.Again.{
  IsConfigured, add_device_plugin_config_map_data-again,
}
use accelerator_config_manag.Gpu.ConfigMaps.Replaced.{IsOnlyKey, config_name, replaced}
use accelerator_config_manag.Tests.Clients.{library}
use accelerator_config_manag.Tests.Resources.{texts, gpu_policy, gpu_manager}

-- The manager of a policy with a time-slicing configuration.
abbrev slicing : GpuModeManager texts
slicing = record gpu_manager {
  instance_ = record (gpu_policy "time-slicing") {
    spec = record (gpu_policy "time-slicing").spec {
      time_slicing_config = some (record {
        rename_by_default = true;
        fail_requests_greater_than_one = false;
        resources = none;
      });
    };
  };
}

-- A library that knows one text.
abbrev yaml : Library texts
yaml = record library {
  marshal_config = λ config. ("yaml", none);
  unmarshal_config = λ text.
      if text == "yaml"
      then (device_plugin_config library slicing, none)
      else library.unmarshal_config text;
}

-- The state is the data of the ConfigMap.
abbrev data_client : GpuClient texts (Dict String)
data_client = record {
  nodes = record {
    get_node = λ name s. (done (record { name = name; labels = made [] }), s);
    list_nodes = λ selector s. (done [], s);
    update_node = λ node s. (none, s);
    patch_node = λ base node s. (done node, s);
    errorf = λ text. text;
  };
  get_policy = λ name s. (done (gpu_policy "time-slicing"), s);
  update_policy = λ policy s. (done policy, s);
  update_status = λ policy s. (none, s);
  get_config_map = λ name s. (done (record { name = name.name; entries = made s }), s);
  patch_config_map = λ base wanted s. (none, entries wanted.entries);
}

-- An old configuration of the policy `a`, and one of the policy `b`.
abbrev old_data : Dict String
old_data = ("b-2f3e4d", "other") ∷ ("a-1f2e3d", "old") ∷ []

abbrev new_data : Dict String
new_data = replaced yaml slicing "yaml" old_data

only : IsOnlyKey (config_prefix "a") old_data
unfolding lookup find_prefix_key
only k p h = elim (Bool-cases ("b-2f3e4d" == k)) [
  | inl e ↦
      let other : starts_with "b-2f3e4d" (config_prefix "a") ≡ true =
        subst (λ x. starts_with x (config_prefix "a") ≡ true) (sym ((eq_iff "b-2f3e4d" k).0 e)) p in
      cc
  | inr e ↦ elim (Bool-cases ("a-1f2e3d" == k)) [
    | inl e' ↦ sym ((eq_iff "a-1f2e3d" k).0 e')
    | inr e' ↦ let none' = rw (e, e') at h in cc
  ]
]

differs :
    ¬ IsConfigured yaml data_client slicing
      (lookup (find_prefix_key old_data (config_prefix "a")) old_data)
unfolding lookup find_prefix_key device_plugin_config
differs e = let v : "old" ≡ "v1" = ap (λ c. c.version) e in cc

add_device_plugin_config_map_data-again_example :
    (add_device_plugin_config_map_data yaml data_client "default" slicing old_data ≡ (
      ok (
        record slicing {
          device_plugin_config_name = config_name yaml slicing "yaml";
          device_plugin_config_updated = true;
        },
        none,
      ),
      new_data,
    ))
    × ((k : String)
        → lookup k new_data ≡ (
            if config_name yaml slicing "yaml" == k
            then some "yaml"
            else if find_prefix_key old_data (config_prefix "a") == k
            then none
            else lookup k old_data))
    × ((k : String)
        → starts_with k (config_prefix "a") ≡ true
        → lookup k new_data ≡ (if config_name yaml slicing "yaml" == k then some "yaml" else none))
    × ((k : String)
        → (k == "") ≡ false
        → starts_with k (config_prefix "a") ≡ false
        → lookup k new_data ≡ lookup k old_data)
    × (add_device_plugin_config_map_data yaml data_client "default" slicing new_data ≡ (
      ok (record slicing { device_plugin_config_name = config_name yaml slicing "yaml" }, none),
      new_data,
    ))
unfolding lookup find_prefix_key device_plugin_config
add_device_plugin_config_map_data-again_example =
    add_device_plugin_config_map_data-again yaml data_client "default" "nvidia-plugin-configs"
      "yaml" slicing old_data old_data old_data new_data new_data new_data refl only differs refl
      refl refl refl refl

-- The only key of the data that starts with `a-` is one of the policy `a-b`: it goes.
other_replaced :
    lookup "a-b-1f2e3d" (replaced yaml slicing "yaml" (("a-b-1f2e3d", "x") ∷ [])) ≡ none
unfolding lookup find_prefix_key insert erase compute_hash
other_replaced = refl
