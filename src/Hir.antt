-- ===== src/Hir.antt =====
-- crates/crunch-shared/src/trees/hir.rs: the tree that lowering builds, and the types that it names.
mod Leaves
mod Nodes
unfoldable pub use Leaves.*
unfoldable pub use Nodes.*
pub mod Tally
pub mod Scopes
