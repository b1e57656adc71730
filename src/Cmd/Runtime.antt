-- ===== src/Cmd/Runtime.antt =====
-- What the programs call of controller-runtime, which is not part of the repository, over an unknown
-- state of the process.
use accelerator_config_manag.Prelude.{String, Bool, Option, ℕ}
use accelerator_config_manag.Api.Meta.{Error, Fallible}

-- `time.Duration`, an int64 of nanoseconds, as a word of two's complement: below 2 ^ 64.
abbrev pub Duration : Type 0
Duration = ℕ

-- `ctrl.Options`, the fields that the programs set.
pub record Options : Type 0 where
  pub metrics_bind_address : String
  pub port : ℕ
  pub health_probe_bind_address : String
  pub leader_election : Bool
  pub leader_election_id : String
  pub renew_deadline : Option Duration
  pub lease_duration : Option Duration

-- The reconcilers that the programs make; the client, the log and the scheme of each are those of
-- the manager.
pub data Reconciler : Type 0 where
  -- `Namespace`
  gpu_node_policy : String → Reconciler
  npu_node_policy : Reconciler
  -- `Node`
  npu_config : String → Reconciler

-- The resources that are watched: by `For`, or by a watch of the daemon with the predicates of
-- addWatchNpuPolicy or addWatchNPUNode.
pub data Resource : Type 0 where
  gpu_policies : Resource
  npu_policies : Resource
  nodes : Resource

-- The types of controller-runtime that the programs only pass on.
pub record Kinds : Type 1 where
  pub Config : Type 0
  pub Manager : Type 0
  pub Controller : Type 0
  pub Context : Type 0

pub record Runtime (K : Kinds) (S : Type 0) : Type 0 where
  -- `clientgoscheme.AddToScheme(scheme)` and `esv1.AddToScheme(scheme)`
  pub add_client_go : S → Error × S
  pub add_es : S → Error × S
  -- `os.Getenv`
  pub getenv : String → String
  -- `ctrl.GetConfigOrDie`, which has left the process where there is no configuration.
  pub get_config : S → Option K.Config × S
  pub new_manager : K.Config → Options → S → Fallible K.Manager × S
  -- `ctrl.NewControllerManagedBy(mgr).For(resource).Complete(r)`
  pub complete : K.Manager → Resource → Reconciler → S → Error × S
  -- `controller.New(name, mgr, controller.Options{Reconciler: r})`
  pub new_controller : String → K.Manager → Reconciler → S → Fallible K.Controller × S
  -- `c.Watch`
  pub watch : K.Controller → Resource → S → Error × S
  pub add_healthz_check : K.Manager → String → S → Error × S
  pub add_readyz_check : K.Manager → String → S → Error × S
  pub setup_signal_handler : S → K.Context × S
  pub start : K.Manager → K.Context → S → Error × S
