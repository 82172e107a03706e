-- ===== src/Tests.antt =====
-- Runs of the model and instances of its theorems.
mod Runs
mod Sources
mod Lookups
mod Tokens
mod Readback
mod Collecting
mod Tables
mod Metrics
mod Configs
mod Kafka
mod Apps
mod Places
mod Starting
mod Selecting
mod Processes
