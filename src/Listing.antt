-- ===== src/Listing.antt =====
-- The comparators by which directory listings are sorted: `compare_entries` of
-- multithreading-http-server.c (lines 15 to 28), and `Compare`, which np20.c (lines 34 to 46),
-- scandir-mo-rong.c and scandir-usage.cpp share word for word.
pub mod Order
use network_programming_lab.Prelude.{ℕ, Bytes, ◌==◌, if◌then◌else◌}
use network_programming_lab.Strcmp.{Sign, below, above, sign_of_difference, strcmp}

pub record FileEntry : Type 0 where
  pub name : Bytes
  pub is_dir : ℕ  -- int

unfoldable pub compare_entries : FileEntry → FileEntry → Sign
compare_entries a b =
    if a.is_dir == b.is_dir then strcmp a.name b.name else sign_of_difference b.is_dir a.is_dir

-- `struct dirent`, as far as it is read.
pub record Dirent : Type 0 where
  pub d_type : ℕ
  pub d_name : Bytes

abbrev pub dt_dir : ℕ
dt_dir = 4

unfoldable pub compare_dirents : Dirent → Dirent → Sign
compare_dirents e1 e2 =
    if e1.d_type == e2.d_type
    then strcmp e1.d_name e2.d_name
    else if e1.d_type == dt_dir
    then below
    else above
