-- ===== src/Helper.antt =====
-- scripts/utils/script-helper.ts: the class `ScriptHelper`. Its program and its network are given by
-- the configuration, its connection and its wallet by the platform.
pub mod Addresses
pub mod Offer
pub mod Vault
pub mod Authority
pub mod Setup
pub mod Redemption
pub mod Calm
