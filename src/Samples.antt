-- ===== src/Samples.antt =====
-- Concrete inputs: tests of the definitions, and the theorems at inputs that meet their hypotheses.
mod World
mod Policies
mod Requests
mod Balancing
mod Leasing
mod Access
mod Monitoring
mod Stores
mod Cluster
mod Slicing
mod Routing
mod Calling
