-- ===== src/Token.antt =====
-- crates/crunch-parser/src/token.rs: the kinds of token, tokens, and the stream that the parser
-- pulls them from. The lexer itself is generated by the crate `logos` from the attributes on the
-- enumeration, so its output, a list of tokens, is an input of the model.
mod Kind
mod Stream
unfoldable pub use Kind.*
unfoldable pub use Stream.*
