-- ===== src/Balancer.antt =====
-- pkg/controlplane/authz/loadbalancer.go: the choice of an import source, attempt by attempt.
pub mod Select
pub mod Random
pub mod Trails
pub mod Progress
pub mod Schemes
pub mod Attempts
