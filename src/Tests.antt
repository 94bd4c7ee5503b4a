-- ===== src/Tests.antt =====
-- Sample data, runs of the code on it, and each theorem at a concrete input.
mod Samples
mod Outbox
mod Policies
mod Runs
mod Commands
mod Steps
mod Watching
mod Door
mod Monitored
mod Remembered
mod Pruned
