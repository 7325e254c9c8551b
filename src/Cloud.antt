-- ===== src/Cloud.antt =====
-- The cloud provider and its table of nodes (src/s2f/management/cloudprovider).
pub mod Sorted
pub mod NodeTable
pub mod Provider
