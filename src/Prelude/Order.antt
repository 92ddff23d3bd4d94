-- ===== src/Prelude/Order.antt =====
-- Total orders (`Ord`), as the program's sorts and B-tree collections use them.
mod Defs
mod Lexicographic
mod Sorting
mod Maps
pub use Defs.*
unfoldable pub use Lexicographic.*
unfoldable pub use Sorting.*
unfoldable pub use Maps.*
