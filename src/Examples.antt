-- ===== src/Examples.antt =====
-- The properties at concrete inputs.
pub mod Addresses
pub mod Sessions
pub mod Proxies
pub mod Kernel
pub mod Turns
pub mod Parsing
pub mod Packets
pub mod Configured
pub mod Filtering
pub mod Counted
pub mod Relayed
