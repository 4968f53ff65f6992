-- ===== src/Plugins.antt =====
-- src/plugins/: the state that the host keeps of a plugin: its circuit, and what it stores.
mod Circuit
mod Faults
mod Kv
mod Quota
mod Snapshot
mod Replaced
mod Tests
