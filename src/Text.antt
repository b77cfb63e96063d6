-- ===== src/Text.antt =====
-- Go's `string` as the list of its bytes: literals, equality, prefixes, `strings.TrimSpace` and the
-- decimal functions of package `strconv` in the modules below.
mod Bytes
pub mod Trim
pub mod Decimal
pub mod Utf8
unfoldable pub use Bytes.*
