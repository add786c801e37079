-- ===== src/Examples.antt =====
-- Runs of the models on concrete inputs.
mod Machine
mod Engine
mod Planner
mod Runtime
mod Linux
mod Dns
mod Isolated
mod Session
