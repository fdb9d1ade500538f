-- ===== src/Js.antt =====
-- What the scripts use of the language itself: numbers, texts and untyped values.
mod Numbers
mod Texts
mod Values
unfoldable pub use Numbers.*
unfoldable pub use Texts.*
unfoldable pub use Values.*
