-- ===== src/Authz.antt =====
-- pkg/controlplane/authz: the authorization of connections.
pub mod Pods
pub mod Attributes
pub mod Egress
pub mod Ingress
pub mod Server
pub mod Credentials
