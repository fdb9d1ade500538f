-- ===== src/Prompts.antt =====
-- scripts/cli/prompts: parameter definitions, validation, and the filling in of parameters.
pub mod Types
pub mod Validators
pub mod Single
pub mod Transform
pub mod All
pub mod Checked
pub mod Resolved
pub mod Calm
pub mod Flags
