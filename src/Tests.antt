-- ===== src/Tests.antt =====
-- The theorems applied to concrete policies, nodes and clusters.
mod World
mod Controls
mod Nodes
mod Resources
mod Clients
mod Reconciles
mod Totals
mod Loops
mod Npus
mod Programs
mod Configs
mod Copies
