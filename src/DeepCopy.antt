-- ===== src/DeepCopy.antt =====
-- api/v1/zz_generated.deepcopy.go: the copies of the policies that the controllers work on, on values
-- that know where in memory their pointers, maps and slices stand.
pub mod Memory
pub mod Gpu
pub mod Npu
pub mod Laws
