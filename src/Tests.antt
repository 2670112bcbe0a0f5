-- ===== src/Tests.antt =====
-- Concrete inputs of the program, and each theorem applied to one of them.
pub mod States
pub mod Sldns
pub mod Engine
pub mod Queue
pub mod Addresses
pub mod Jni
pub mod Bridge
pub mod Registry
pub mod Names
pub mod Driver
pub mod Packets
pub mod Races
pub mod Histories
