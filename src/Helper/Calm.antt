-- ===== src/Helper/Calm.antt =====
-- scripts/utils/script-helper.ts, its effects on the world.
mod Reads
mod Offers
mod Authorities
mod Redemptions
pub use Reads.*
pub use Offers.*
pub use Authorities.*
pub use Redemptions.*
