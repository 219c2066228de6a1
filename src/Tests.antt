-- ===== src/Tests.antt =====
-- Runs of the models and uses of their theorems at concrete inputs.
mod Capacity
mod Node
mod Frames
mod Directory
mod Gateway
mod Probes
mod Routing
mod Local
mod Workflow
