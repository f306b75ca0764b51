-- ===== src/Crds.antt =====
-- The custom resources of pkg/apis/clusterlink.net/v1alpha1, and the names of objects.
pub mod Names
pub mod Policies
pub mod Imports
pub mod Peers
