-- ===== src/Cmd/Setup.antt =====
-- The SetupWithManager functions of internal/controller.
use accelerator_config_manag.Prelude.{String, none, some}
use accelerator_config_manag.Api.Meta.{Error, Fallible, done, failed}
use accelerator_config_manag.Cmd.Runtime.{
  Kinds, Runtime, gpu_node_policy, npu_node_policy, npu_config, gpu_policies, npu_policies, nodes,
}

module _ {K : Kinds} {S : Type 0} (runtime : Runtime K S) where
  -- gpunodepolicy_controller.go
  unfoldable pub setup_gpu : String → K.Manager → S → Error × S
  setup_gpu namespace mgr = runtime.complete mgr gpu_policies (gpu_node_policy namespace)

  -- npunodepolicy_controller.go
  unfoldable pub setup_npu : K.Manager → S → Error × S
  setup_npu mgr = runtime.complete mgr npu_policies npu_node_policy

  abbrev watch_rest : K.Controller → Error × S → Error × S
  watch_rest c (some e, s) = (some e, s)
  watch_rest c (none, s) = runtime.watch c nodes s

  abbrev with_controller : Fallible K.Controller × S → Error × S
  with_controller (failed e, s) = (some e, s)
  with_controller (done c, s) = watch_rest c (runtime.watch c npu_policies s)

  -- npuconfig_controller.go, with the calls of addWatchNpuPolicy and addWatchNPUNode.
  unfoldable pub setup_daemon : String → K.Manager → S → Error × S
  setup_daemon node mgr s =
      with_controller (runtime.new_controller "npu-config-controller" mgr (npu_config node) s)
