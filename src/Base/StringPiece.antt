-- ===== src/Base/StringPiece.antt =====
-- src/playground/base/string_piece.cc and string_piece.h: the searches, slices and tests of a
-- piece of text. A piece is the list of its bytes; a `size_t` result that may be `npos` is an
-- `Option`, `none` for `npos`, and so is a `pos` or `n` argument whose default is `npos`.
-- A lookup table of 256 flags is the membership test in the set of bytes that builds it.
mod Search
mod Slices
unfoldable pub use Search.*
unfoldable pub use Slices.*
