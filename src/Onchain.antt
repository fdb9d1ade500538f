-- ===== src/Onchain.antt =====
-- programs/onreapp/src: the prices, the amounts and the state of the on-chain program.
pub mod Run
pub mod Price
pub mod Amounts
pub mod State
pub mod Offer
pub mod Process
pub mod Tokens
pub mod Redemption
pub mod Views
