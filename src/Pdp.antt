-- ===== src/Pdp.antt =====
-- pkg/controlplane/authz/connectivitypdp: the policy decision point.
pub mod Matching
pub mod Tiers
pub mod Matches
pub mod Decisions
pub mod Precedence
pub mod Validity
pub mod Histories
pub mod Lookups
pub mod Aliasing
