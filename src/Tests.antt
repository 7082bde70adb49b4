-- ===== src/Tests.antt =====
-- Runs of the definitions at concrete inputs, and the theorems at inputs that meet their hypotheses.
mod Samples
mod Copies
mod Start
mod Telemetry
mod Database
mod Dispatch
mod Pipeline
mod Loops
mod Managed
mod Rest
mod Cluster
mod Valves
mod Bridges
