-- ===== src/Parser/Types.antt =====
-- crates/crunch-parser/src/parser/types.rs: the parser of types.
mod Tables
mod Named
mod Prefix
mod Tests
pub mod Lists
pub mod Ending
pub mod FunctionPointers
pub mod Forms
pub mod Progress
unfoldable pub use Tables.*
unfoldable pub use Named.*
unfoldable pub use Prefix.*
