-- ===== src/Tests.antt =====
-- Concrete runs of the model, with the theorems at them.
mod Graphs
mod Lifecycles
mod Names
mod Records
mod Leases
mod Supervision
mod Missions
mod Requests
mod Agents
mod Scheduling
mod Recoveries
mod Planning
