-- ===== src/Tests.antt =====
-- Runs at concrete inputs, and the theorems at inputs that meet their conditions.
mod Block
mod Runq
mod Collector
mod Pinned
mod Operator
mod Scaling
mod Sorting
mod Pipeline
mod Interleave
mod Switches
mod Paths
mod Policies
mod Migration
mod Rounds
