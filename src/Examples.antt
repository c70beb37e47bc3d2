-- ===== src/Examples.antt =====
-- Runs of the definitions at concrete inputs, and the theorems at inputs that meet their
-- hypotheses.
mod Jobs
mod Managers
mod Orchestrations
mod Auths
mod Packages
mod Readbacks
mod Checkpoints
mod Matches
mod PackagePaths
mod Imports
mod Connections
mod Databases
