-- ===== src/Tests/Totals.antt =====
-- Reconciliations that come to an outcome, and the writing of a status.
use mathlib.Core.List.Perm
use accelerator_config_manag.Prelude.{
  String, ◌==◌, if◌then◌else◌, true, false, none, some, [], ◌∷◌, ◌≡◌, refl, ap, sym, ◌∙◌,
}
use accelerator_config_manag.Prelude.Dict.{Dict, lookup}
use accelerator_config_manag.Prelude.GoMap.{GoMap, made, nil_map, get, is_made}
use accelerator_config_manag.Prelude.Run.{ok, panic}
use accelerator_config_manag.Prelude.{List}
use accelerator_config_manag.Api.Meta.{Node, Fallible, failed, Error, ConfigMap, done}
use accelerator_config_manag.Api.Gpu.{GpuNodePolicy, GpuNodeStatus}
use accelerator_config_manag.Common.Client.Labelled.{ListsLabelled}
use accelerator_config_manag.Common.DeepEqual.Laws.{Same}
use accelerator_config_manag.Common.Filter.Kept.{all, has_labels}
use accelerator_config_manag.Common.Outcome.{Outcome, set_up, write_outcome}
use accelerator_config_manag.Gpu.External.{Library, GpuClient}
use accelerator_config_manag.Labels.{text_of}
use accelerator_config_manag.Gpu.ConfigMaps.Mig.{
  config_yaml, change_mig_config, replace_mig_config, add_mig_config_map_data,
}
use accelerator_config_manag.Gpu.Controls.{new_gpu_mode_manager}
use accelerator_config_manag.Common.Text.{find_prefix_key, compute_hash}
use accelerator_config_manag.Gpu.ConfigMaps.{is_mig_none_strategy}
use accelerator_config_manag.Gpu.ConfigMaps.Total.{ReadsData, KeepsData}
use accelerator_config_manag.Gpu.Reconcile as GpuReconcile
use accelerator_config_manag.Gpu.Reconcile.Total.{is_admitted, AnswersAdmitted, gpu_reconcile-total}
use accelerator_config_manag.Gpu.Reconcile.Status.{write_status_lem}
use accelerator_config_manag.Npu.Reconcile as NpuReconcile
use accelerator_config_manag.Npu.Reconcile.Total.{npu_reconcile-total}
use accelerator_config_manag.Tests.World.{Cluster, node_at, nodes_client}
use accelerator_config_manag.Tests.Clients.{
  config_map, gpu_client, npu_client, mig_spec, library, req, bare,
}
use accelerator_config_manag.Tests.Resources.{texts, gpu_policy}

nodes_client-ListsLabelled : ListsLabelled nodes_client
nodes_client-ListsLabelled selector s nodes e =
    let p : node_at "n1" s ∷ [] ≡ nodes = cc in ap (λ x. all has_labels x) (sym p)

npu_reconcile-total_example :
    (out : Outcome) × (t : Cluster) × (NpuReconcile.reconcile npu_client (λ m. m) req bare
      ≡ (ok out, t))
npu_reconcile-total_example =
    npu_reconcile-total npu_client (λ m. m) (λ m. Perm.refl m) nodes_client-ListsLabelled req bare

-- A policy of the MIG mode on the API server, however it is updated.
abbrev mig_policy : GpuNodePolicy texts
mig_policy =
    let policy = gpu_policy "mig" in
    record policy {
      spec = record policy.spec {
        mig_config = some (record {
          strategy = "single";
          config_slice =
              record { device_filter = ""; devices = "all"; mig_devices = "1g.5gb: 7" } ∷ [];
        });
      };
    }

abbrev mig_text : String
mig_text = "version: v1\nmig-configs:\n  a-1f2e3d: []"

-- The data of the two ConfigMaps: of the device plugin's, and of mig-parted's.
abbrev Store : Type 0
Store = GoMap String × GoMap String

abbrev data_of : String → Store → GoMap String
data_of name s = if name == "default-mig-parted-config" then s.1 else s.0

abbrev stored : String → GoMap String → Store → Store
stored name data_ s = if name == "default-mig-parted-config" then (s.0, data_) else (data_, s.1)

abbrev one_node : List Node
one_node = record { name = "n1"; labels = made (("gpu", "true") ∷ []) } ∷ []

-- A cluster that keeps its ConfigMaps, and a policy of the MIG mode.
abbrev store_client : GpuClient texts Store
store_client = record {
  nodes = record {
    get_node = λ name s. (done (record { name = name; labels = made [] }), s);
    list_nodes = λ selector s. (done one_node, s);
    update_node = λ node s. (none, s);
    patch_node = λ base node s. (done node, s);
    errorf = λ text. text;
  };
  get_policy = λ name s. (done mig_policy, s);
  update_policy = λ policy s. (done mig_policy, s);
  update_status = λ policy s. (none, s);
  get_config_map = λ r s. (done (record { name = r.name; entries = data_of r.name s }), s);
  patch_config_map = λ base wanted s. (none, stored base.name wanted.entries s);
}

-- Any text but that of mig-parted gives the zero Spec, whose `mig-configs` is nil.
abbrev yaml_library : Library texts
yaml_library = record library {
  unmarshal_spec = λ text.
      if text == mig_text
      then (mig_spec, none)
      else (record { version = ""; mig_configs = nil_map }, none);
}

abbrev start_data : GoMap String
start_data = made (("config.yaml", mig_text) ∷ [])

abbrev mig_config_map : GoMap String → ConfigMap
mig_config_map data_ = record { name = "default-mig-parted-config"; entries = data_ }

abbrev config_name : Fallible ConfigMap → String
config_name (done config_map) = config_map.name
config_name (failed e) = ""

read_mig :
    yaml_library.unmarshal_spec (text_of (get config_yaml (mig_config_map start_data).entries))
    ≡ (mig_spec, none)
unfolding lookup
read_mig = refl

-- The device plugin's ConfigMap has data, and mig-parted's has the text above.
abbrev HasPlugin : Store → Type 0
HasPlugin s = is_made s.0 ≡ true

abbrev HasMig : Store → Type 0
HasMig s = s.1 ≡ start_data

store_client-ReadsData : ReadsData yaml_library store_client "default" HasPlugin HasMig
store_client-ReadsData = record {
  plugin_data = λ s config_map h e.
      let p : record { name = "nvidia-plugin-configs"; entries = s.0 } ≡ config_map = cc in
      rw (← p) h;
  mig_data = λ s config_map h e.
      let p : mig_config_map s.1 ≡ config_map = cc in
      rw (← p, h)
        (record {
          has_entries = refl;
          has_configs = λ config q.
              let r : mig_spec ≡ config = ap (λ x. x.0) (sym read_mig ∙ q) in rw (← r) refl;
        });
}

store_client-KeepsData : KeepsData store_client HasPlugin HasMig
store_client-KeepsData = record {
  got_policy = λ name s p i. (p, i);
  updated_policy = λ policy s p i. (p, i);
  listed_nodes = λ selector s p i. (p, i);
  patched_node = λ base node s i. i;
  named = λ r s config_map e. ap config_name (sym e);
  got_config_map = λ r s i. i;
  patched_config_map = λ base wanted s differs i. rw differs i;
}

store_client-AnswersAdmitted : AnswersAdmitted store_client
unfolding is_admitted
store_client-AnswersAdmitted = record {
  read = λ name s p e. let q : mig_policy ≡ p = cc in rw (← q) refl;
  updated = λ policy s p e. let q : mig_policy ≡ p = cc in rw (← q) refl;
}

store_client-ListsLabelled : ListsLabelled store_client.nodes
store_client-ListsLabelled selector s nodes e =
    let p : one_node ≡ nodes = cc in ap (λ x. all has_labels x) (sym p)

-- The device plugin's ConfigMap has a configuration of another policy and no `config.yaml`.
abbrev start : Store
start = (made (("b-1f2e3d", "x") ∷ []), start_data)

gpu_reconcile-total_example :
    (out : Outcome) × (t : Store) × (GpuReconcile.reconcile yaml_library store_client "default"
        (λ m. m)
        req
        start
      ≡ (ok out, t))
gpu_reconcile-total_example =
    gpu_reconcile-total yaml_library store_client "default" HasPlugin HasMig
      store_client-ListsLabelled store_client-ReadsData store_client-KeepsData (λ m. m)
      (λ m. Perm.refl m) store_client-AnswersAdmitted req start refl refl

-- A `config.yaml` without `mig-configs`: the write to its nil map panics.
abbrev bare_store : Store
bare_store = (made [], made (("config.yaml", "version: v1") ∷ []))

add_mig_config_map_data_nil :
    add_mig_config_map_data yaml_library store_client "default"
      (new_gpu_mode_manager mig_policy)
      bare_store
    ≡ (panic, bare_store)
unfolding add_mig_config_map_data change_mig_config replace_mig_config lookup find_prefix_key
    new_gpu_mode_manager compute_hash is_mig_none_strategy
add_mig_config_map_data_nil = refl

abbrev enabled : GpuNodeStatus
enabled = record {
  time_slicing_mode = none;
  mig_mode = none;
  default_mode = some (record { enabled = true });
  pass_through_mode = none;
  vcuda_mode = none;
}

abbrev with_status : Dict GpuNodeStatus → GpuNodePolicy texts
with_status nodes = record (gpu_policy "default") { status = record { nodes = made nodes } }

-- Two nodes, and one of them.
abbrev read : GpuNodePolicy texts
read = with_status (("n1", enabled) ∷ ("n2", enabled) ∷ [])

abbrev made_now : GpuNodePolicy texts
made_now = with_status (("n2", enabled) ∷ [])

write_status_lem_example :
    (Same read.status.nodes made_now.status.nodes
      → GpuReconcile.write_status library gpu_client "default" req read made_now false bare
        ≡ (ok (set_up req false), bare))
    × (¬ Same read.status.nodes made_now.status.nodes
        → (err : Error) (t : Cluster) → gpu_client.update_status made_now bare ≡ (err, t)
        → GpuReconcile.write_status library gpu_client "default" req read made_now false bare
          ≡ (ok (write_outcome req false err), t))
unfolding lookup
write_status_lem_example =
    write_status_lem library gpu_client "default" req read made_now false bare (refl, (refl, tt))
      (refl, tt)

-- The second half is not empty.
differ : ¬ Same read.status.nodes made_now.status.nodes
unfolding lookup
differ same = let p : some enabled ≡ none = same "n1" in cc
