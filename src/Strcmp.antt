-- ===== src/Strcmp.antt =====
-- `strcmp` of the C library on texts without their NUL, and comparators as `qsort` and `scandir`
-- take them. Only the sign of a comparator's result is read.
mod Defs
mod Laws
mod Sorting
mod Insertion
unfoldable pub use Defs.*
pub use Laws.*
pub use Sorting.*
pub use Insertion.{insertion}
