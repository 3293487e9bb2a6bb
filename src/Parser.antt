-- ===== src/Parser.antt =====
-- crates/crunch-parser/src/parser/mod.rs: the parser's state, its error handling and the functions
-- that pull tokens; the children model the files beside it.
mod Core
pub mod Runs
pub mod Progress
pub mod Keeps
pub mod Visible
pub mod Eaten
pub mod Stops
pub mod Newlines
pub mod Paths
mod Tokens
mod Loop
mod Literal
mod Tests
mod Sample
pub mod Operators
pub mod Types
pub mod Calls
pub mod Blocks
pub mod Expr
pub mod Stmt
pub mod Item
pub mod Grammar
pub mod Ends
unfoldable pub use Core.*
unfoldable pub use Tokens.*
unfoldable pub use Loop.*
unfoldable pub use Literal.*
unfoldable pub use Operators.*
