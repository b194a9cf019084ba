-- ===== src/Invariant.antt =====
-- Invariants of the global state (src/core/Provider.cpp, src/core/ProviderCore.cpp,
-- src/broker/ProviderBrokerSession.cpp, src/broker/ProviderSerialization.cpp) under every operation.
pub mod Session
pub mod Poll
pub mod Steps
pub mod Handles
pub mod Events
pub mod History
pub mod Phase
