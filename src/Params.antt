-- ===== src/Params.antt =====
-- scripts/cli/params: the parameter tables of the commands.
pub mod Common
pub mod Offer
pub mod Redemption
pub mod Authority
pub mod Setup
pub mod WellFormed
