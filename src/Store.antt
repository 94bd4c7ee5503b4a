-- ===== src/Store.antt =====
-- store.py
pub mod Row
pub mod Outbox
pub mod Meta
pub mod Control
pub mod Policies
pub mod Integrity
pub mod Extends
pub mod Feed
