-- ===== src/Ast.antt =====
-- crates/crunch-shared/src/trees/ast.rs and trees/mod.rs: the syntax that the parser builds. Each
-- node keeps the location that the source gives it.
mod Leaves
mod Nodes
unfoldable pub use Leaves.*
unfoldable pub use Nodes.*
