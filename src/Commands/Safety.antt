-- ===== src/Commands/Safety.antt =====
-- scripts/cli/implementations, as steps around the handling of transactions.
pub mod Offer
pub mod Vault
pub mod Redemption
pub mod Authority
pub mod Setup
