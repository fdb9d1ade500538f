-- ===== src/Session.antt =====
-- What a run of a script deals with: the chain, the user and the file system, which it does not
-- implement (`Platform`), the record of what it has done (`World`), and the monad of its steps.
mod Data
mod Monad
mod Laws
mod Effects
pub mod Calm
unfoldable pub use Data.*
unfoldable pub use Monad.*
pub use Laws.*
pub use Effects.*
