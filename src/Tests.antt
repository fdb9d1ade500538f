-- ===== src/Tests.antt =====
-- The theorems at concrete inputs, and runs of the definitions.
mod Fixtures
mod Networks
mod Prompts
mod Commands
mod Onchain
mod Redemption
