-- ===== src/Parser/Expr.antt =====
-- crates/crunch-parser/src/parser/expr.rs: the parser of expressions.
pub mod Tables
mod Operations
mod Values
mod Control
mod Climb
unfoldable pub use Operations.*
unfoldable pub use Values.*
unfoldable pub use Control.*
unfoldable pub use Climb.*
