-- ===== src/Lib.antt =====
-- A model of the accelerator-config-manager, two Kubernetes controllers and a daemon that set up the
-- nodes of a cluster for GPUs and NPUs.
--
-- A GpuNodePolicy or an NpuNodePolicy selects nodes and names a mode. Its controller (reconcile of
-- Gpu.Reconcile and of Npu.Reconcile) reads the policy, registers a finalizer, splits the nodes into
-- those to adopt, to update and to release (Common.Filter), writes the labels of the mode to them
-- (the loops of Gpu.Nodes and Npu.Nodes, over the managers of Gpu.Controls and Npu.Controls), and
-- writes the policy's status (Gpu.Status, Npu.Status). The GPU controller also keeps one
-- configuration for each policy in the ConfigMap of NVIDIA's device plugin (Gpu.ConfigMaps) and one in
-- that of mig-parted (Gpu.ConfigMaps.Mig). A policy that is being deleted has its nodes released and
-- its configurations removed before its finalizer goes. On an NPU node the daemon (Npu.Daemon, and its
-- predicates on events in Npu.Daemon.Events) answers the labels of the controller with the label of
-- the node's state: ReleaseNodes of the NPU controller asks for another round until it finds the nodes
-- restored, which Npu.Protocol composes. Cmd is the start of the two processes.
--
-- Files and sources:
--   Api/*               api/v1/gpunodepolicy_types.go, api/v1/npunodepolicy_types.go and
--                       api/config/v1/config.go; Api/Meta for what the code uses of Kubernetes' types
--   Labels              the shared steps of the managers on one node's labels
--   Gpu/Controls        internal/controller/gpu_controls.go
--   Gpu/Names, Gpu/Nodes, Gpu/Status, Gpu/ConfigMaps, Gpu/Reconcile
--                       internal/controller/gpunodepolicy_controller.go
--   Common/Text, Common/Filter
--                       its StringInArray, RemoveString, FindPrefixKey, ComputeHash and FilterNodes
--   Npu/Controls        internal/controller/npu_controls.go
--   Npu/Names, Npu/Nodes, Npu/Status, Npu/Reconcile
--                       internal/controller/npunodepolicy_controller.go
--   Npu/Daemon, Npu/Daemon/Events
--                       internal/controller/npuconfig_controller.go
--   Npu/Protocol        ReleaseNodes of the NPU controller, followed by the daemon
--   Cmd/Manager, Cmd/Daemon, Cmd/Exit
--                       cmd/config-manager/main.go, cmd/npu-config-daemon/main.go
--   Cmd/Setup           the SetupWithManager functions of internal/controller
--   DeepCopy/*          api/v1/zz_generated.deepcopy.go
--   Tests/*             the theorems at concrete policies, nodes and clusters
-- A function keeps its name in snake_case; a step of a long function has a name of its own, with the
-- lines it stands for in its comment. The modules Laws, Adopted, Settled, Released, Restored,
-- Unrestored, Update, Release, Adopt, Kept, Finalize, Replaced, Again, Ends, Total, Gpu/Reconcile/Status and
-- Npu/Protocol hold proofs; Common/Client/Loop is the loop that the proofs about nodes share.
--
-- Code that acts on the cluster is a function from the state of the cluster, which is a parameter, to
-- a result and a new state (Prelude.Eff). A result is a value or a panic (Prelude.Run): a write to a
-- nil map and a nil pointer panic, as in Go. A map is nil or a list of entries in the order of a
-- range loop (Prelude.GoMap, Prelude.Dict). Every loop is a recursion on its list, so all functions
-- are total and no fuel is needed.
--
-- Parameters, since their code is not in the repository: the Kubernetes client (Common.Client,
-- Gpu.External, Npu.External), YAML, MD5 and the constants of NVIDIA's device plugin (Gpu.External), the
-- types that the resources take from NVIDIA's packages (Api.Foreign), and the order of a range loop
-- over the claimed nodes (`visit` of Common.Filter), the managers of controller-runtime (Cmd.Runtime)
-- and the deep copy of metav1.ObjectMeta (DeepCopy). Common.Client.Labelled states what a merge patch
-- and an update do to the labels of nodes on the server, while nothing else writes to them.
--
-- That a reconciliation of the GPU controller does not panic rests on what is in two ConfigMaps when it
-- starts (ReadsData of Gpu.ConfigMaps.Total): the device plugin's has data, with whatever keys, and
-- mig-parted's has data with a `mig-configs` in its `config.yaml`, since the code writes to the map that
-- YAML makes of it. KeepsData says which calls leave them as they are, while nothing else writes to
-- them. That the listed nodes have labels (ListsLabelled) is asked of every answer of the client.
--
-- A time.Duration is a word of 64 bits in two's complement (Cmd.Manager), with the wrap-around of its
-- sum written out; an int is taken to have 64 bits.
--
-- The other modules take policies as values. DeepCopy has them as values that know where in memory their
-- pointers, maps and slices stand; places are numbers that are handed out one after the other.
--
-- Not modelled: logging; the parsing of the command line; api/v1/groupversion_info.go; the generated
-- copies of the list types and of GpuSelector, which no code of the repository uses, and the list types
-- and GpuSelector themselves; the fields of nodes and ConfigMaps that the code leaves alone.
pub mod Prelude
pub mod Api
pub mod Labels
pub mod Common
pub mod Gpu
pub mod Npu
pub mod Cmd
pub mod DeepCopy
mod Tests
