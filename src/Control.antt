-- ===== src/Control.antt =====
-- patches/event-bridge/opc_bridge/control.py: what an operator may do, and what it does.
pub mod Auth
pub mod Once
pub mod Grants
pub mod Revoked
pub mod Refused
pub mod Reconcile
pub mod Reasserted
pub mod Agents
pub mod Service
pub mod Runs
pub mod Allocation
pub mod Frame
pub mod Steps
pub mod Spared
pub mod Below
pub mod Hard
pub mod Stop
