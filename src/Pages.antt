-- ===== src/Pages.antt =====
-- The page `output.html`: `main` of scandir-usage.cpp, and the first half of the loop of `main` in
-- scandir-mo-rong.c. Both have the `Append` of np20.c.
pub mod Session
use network_programming_lab.Prelude.{
  Bool, List, [], ◌∷◌, ◌++◌, ◌≡◌, arith, Option, none, some, Bytes, codes, ◌==◌, if◌then◌else◌,
}
use network_programming_lab.Strcmp.{Sorter, texts_agree}
use network_programming_lab.Listing.{Dirent, dt_dir}
use network_programming_lab.Browser.{Next, quits, at, overflows, browse}
use network_programming_lab.FileServer.Output.{append_all, concat, scanned}
use network_programming_lab.FileServer.Output.Laws.{append_all-none}

-- The calls of `Append` for one entry.
unfoldable pub anchor : Dirent → List Bytes
anchor e =
    let open_tag = if e.d_type == dt_dir then codes "<b>" else codes "<i>" in
    let close_tag = if e.d_type == dt_dir then codes "</b>" else codes "</i>" in
    codes "<a href=\""
    ∷ e.d_name
    ∷ codes "\">"
    ∷ open_tag
    ∷ e.d_name
    ∷ close_tag
    ∷ codes "</a>"
    ∷ codes "<br>"
    ∷ []

unfoldable pub anchors : List Dirent → List Bytes
anchors [] = []
anchors (e ∷ es) = anchor e ++ anchors es

-- What scandir-usage.cpp writes into the file in each round; `found` is what `scandir` finds.
unfoldable pub usage_page : Sorter Dirent → Option (List Dirent) → Option Bytes
usage_page q found =
    append_all (codes "<html>" ∷ (anchors (scanned q found) ++ codes "</html>" ∷ [])) none

-- The entries that scandir-mo-rong.c lists: all but the directory itself.
unfoldable pub listed : List Dirent → List Dirent
listed [] = []
listed (e ∷ es) = if texts_agree e.d_name (codes ".") then listed es else e ∷ listed es

unfoldable pub browser_page : Sorter Dirent → Bytes → Option (List Dirent) → Option Bytes
browser_page q root found =
    append_all
      (codes "<html>"
        ∷ codes "<h2>"
        ∷ root
        ∷ codes "</h2>"
        ∷ (anchors (listed (scanned q found)) ++ codes "</html>" ∷ []))
      none

-- The rounds behind a prompt, from the path that it leads to.
abbrev pub onward : (Bytes → List (Option Bytes)) → Next → List (Option Bytes)
onward rounds quits = []
onward rounds (at next) = rounds next
onward rounds overflows = []

-- The pages that a session writes, one for each prompt; `scandir` is what it finds in a directory.
unfoldable pub browser_pages :
    Sorter Dirent
    → (Bytes → Option (List Dirent))
    → (Bytes → Bool)
    → List Bytes
    → Bytes
    → List (Option Bytes)
browser_pages q scandir is_directory [] root = browser_page q root (scandir root) ∷ []
browser_pages q scandir is_directory (input ∷ inputs) root =
    browser_page q root (scandir root)
    ∷ onward (browser_pages q scandir is_directory inputs) (browse is_directory input root)

-- The page is what the calls of `Append` add up to.
pub browser_page-eq :
    (q : Sorter Dirent) (root : Bytes) (found : Option (List Dirent))
    → browser_page q root found
      ≡ some (
          codes "<html><h2>"
          ++ (root
              ++ (codes "</h2>"
                  ++ concat (anchors (listed (scanned q found)) ++ codes "</html>" ∷ []))))
unfolding browser_page
browser_page-eq q root found =
    append_all-none
      (codes "<html>"
        ∷ codes "<h2>"
        ∷ root
        ∷ codes "</h2>"
        ∷ (anchors (listed (scanned q found)) ++ codes "</html>" ∷ []))
      (omega arith)
