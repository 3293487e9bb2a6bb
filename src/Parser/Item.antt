-- ===== src/Parser/Item.antt =====
-- crates/crunch-parser/src/parser/item.rs: the parser of items.
mod Parts
mod Functions
mod TypeDecls
mod Imports
mod Bodies
unfoldable pub use Parts.*
unfoldable pub use Functions.*
unfoldable pub use TypeDecls.*
unfoldable pub use Imports.*
unfoldable pub use Bodies.*
