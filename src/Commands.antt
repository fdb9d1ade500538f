-- ===== src/Commands.antt =====
-- scripts/cli/helpers and scripts/cli/implementations: the commands.
pub mod Wrapper
pub mod Offer
pub mod Vault
pub mod Redemption
pub mod Authority
pub mod State
pub mod Setup
pub mod Frame
pub mod Safety
pub mod Dispatch
pub mod Promises
pub mod Confirmed
pub mod Interactive
pub mod Reports
pub mod Agreed
