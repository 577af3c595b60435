-- ===== src/Pages/Session.antt =====
-- The pages of a session, against the folders that it visits.
use network_programming_lab.Prelude.{
  true, false, none, ==_iff, ◌==◌, Bool-cases, inl, inr, subst, sym, append_assoc, arith, Bool,
  List, [], ◌∷◌, ◌++◌, ◌≡◌, ◌≢◌, refl, ap, ◌∙◌, All, Option, some, Bytes, codes,
}
use mathlib.Core.List.{Perm}
use network_programming_lab.Strcmp.{Sorter, texts_agree, texts_agree_iff}
use network_programming_lab.Listing.{Dirent, dt_dir, compare_dirents}
use network_programming_lab.Browser.{Next}
use network_programming_lab.Browser.Paths.{IsName, render}
use network_programming_lab.Browser.Session.{
  Place, left, inside, too_deep, visit, as_root, HasNames, browse-visit,
}
use network_programming_lab.FileServer.Output.{concat, scanned}
use network_programming_lab.Pages.{
  browser_page, anchor, anchors, listed, onward, browser_pages, browser_page-eq,
}

-- A link with the name of an entry between two tags, and what follows it.
abbrev pub link_row : Bytes → Bytes → Bytes → Bytes → Bytes
link_row open_tag close_tag name rest =
    codes "<a href=\""
    ++ (name ++ (codes "\">" ++ (open_tag ++ (name ++ (close_tag ++ (codes "</a><br>" ++ rest))))))

true_is_not_false : true ≡ false → ⊥
true_is_not_false h = ground (arith, h)

-- The rows that a page has for entries: none for the folder itself, and else a link with the name, bold
-- for a folder and in italics for anything else.
pub data Shows : List Dirent → Bytes → Type 0 where
  nothing : Shows [] []
  itself :
      {e : Dirent} {es : List Dirent} {rows : Bytes}
      → e.d_name ≡ codes "."
      → Shows es rows
      → Shows (e ∷ es) rows
  folder :
      {e : Dirent} {es : List Dirent} {rows : Bytes}
      → e.d_name ≢ codes "."
      → e.d_type ≡ dt_dir
      → Shows es rows
      → Shows (e ∷ es) (link_row (codes "<b>") (codes "</b>") e.d_name rows)
  file :
      {e : Dirent} {es : List Dirent} {rows : Bytes}
      → e.d_name ≢ codes "."
      → e.d_type ≢ dt_dir
      → Shows es rows
      → Shows (e ∷ es) (link_row (codes "<i>") (codes "</i>") e.d_name rows)

-- What `scandir` found, as it was sorted by `Compare`; nothing if it has failed.
abbrev pub IsFound : Sorter Dirent → Option (List Dirent) → List Dirent → Type 0
IsFound q none ordered = ordered ≡ []
IsFound q (some found) ordered = (ordered ≡ q.sort compare_dirents found) × Perm ordered found

-- A page with a path, for what `scandir` found there.
pub record IsPage (q : Sorter Dirent) (path : Bytes) (found : Option (List Dirent)) (html : Bytes)
    : Type 0 where
  pub ordered : List Dirent
  pub all_found : IsFound q found ordered
  pub rows : Bytes
  pub shown : Shows ordered rows
  pub page : html ≡ codes "<html><h2>" ++ (path ++ (codes "</h2>" ++ (rows ++ codes "</html>")))

concat-append : (xs ys : List Bytes) → concat (xs ++ ys) ≡ concat xs ++ concat ys
concat-append [] ys = refl
concat-append (x ∷ xs) ys =
    ap (λ rest. x ++ rest) (concat-append xs ys) ∙ sym (append_assoc x (concat xs) (concat ys))

-- The calls of `Append` for a folder and for anything else.
anchor-folder :
    (e : Dirent) (rest : List Bytes)
    → e.d_type ≡ dt_dir
    → concat (anchor e ++ rest) ≡ link_row (codes "<b>") (codes "</b>") e.d_name (concat rest)
unfolding anchor
anchor-folder e rest h = rw ((==_iff e.d_type dt_dir).1 h) refl

anchor-file :
    (e : Dirent) (rest : List Bytes)
    → (e.d_type == dt_dir) ≡ false
    → concat (anchor e ++ rest) ≡ link_row (codes "<i>") (codes "</i>") e.d_name (concat rest)
unfolding anchor
anchor-file e rest h = rw h refl

listed-Shows : (es : List Dirent) → Shows es (concat (anchors (listed es)))
unfolding anchors listed
listed-Shows [] = nothing
listed-Shows (e ∷ es) =
    let rest = anchors (listed es) in
    elim (Bool-cases (texts_agree e.d_name (codes "."))) [
      | inl dot ↦ rw dot (itself ((texts_agree_iff e.d_name (codes ".")).0 dot) (listed-Shows es))
      | inr other ↦
          let named : e.d_name ≢ codes "." = λ same.
            true_is_not_false (sym ((texts_agree_iff e.d_name (codes ".")).1 same) ∙ other) in
          rw other (elim (Bool-cases (e.d_type == dt_dir)) [
            | inl is_folder ↦
                let type = (==_iff e.d_type dt_dir).0 is_folder in
                subst (Shows (e ∷ es)) (sym (anchor-folder e rest type))
                  (folder named type (listed-Shows es))
            | inr is_file ↦
                let type : e.d_type ≢ dt_dir = ground (arith, is_file) in
                subst (Shows (e ∷ es)) (sym (anchor-file e rest is_file))
                  (file named type (listed-Shows es))
          ])
    ]

scanned-IsFound :
    (q : Sorter Dirent) (found : Option (List Dirent)) → IsFound q found (scanned q found)
scanned-IsFound q none = refl
scanned-IsFound q (some found) = (refl, q.sort-perm compare_dirents found)

-- What the round of the browser writes is the page of its path.
browser_page-IsPage :
    (q : Sorter Dirent) (path : Bytes) (found : Option (List Dirent))
    → (html : Bytes) × (browser_page q path found ≡ some html) × IsPage q path found html
browser_page-IsPage q path found =
    let rows = anchors (listed (scanned q found)) in
    (
      codes "<html><h2>" ++ (path ++ (codes "</h2>" ++ concat (rows ++ codes "</html>" ∷ []))),
      browser_page-eq q path found,
      record {
        ordered = scanned q found;
        all_found = scanned-IsFound q found;
        rows = concat rows;
        shown = listed-Shows (scanned q found);
        page =
            ap (λ rest. codes "<html><h2>" ++ (path ++ (codes "</h2>" ++ rest)))
              (concat-append rows (codes "</html>" ∷ []));
      },
    )

module _ (q : Sorter Dirent) (scandir : Bytes → Option (List Dirent))
    (is_directory : Bytes → Bool) where
  -- The folders that a session shows, each as its stack of names.
  abbrev pub shown_at : (List Bytes → List (List Bytes)) → Place → List (List Bytes)
  shown_at rounds left = []
  shown_at rounds (inside stack) = rounds stack
  shown_at rounds too_deep = []

  abbrev pub visited : List Bytes → List Bytes → List (List Bytes)
  visited [] stack = stack ∷ []
  visited (input ∷ inputs) stack =
      stack ∷ shown_at (visited inputs) (visit is_directory input stack)

  -- A page for each of the folders, and no other.
  abbrev pub ArePages : List (List Bytes) → List (Option Bytes) → Type 0
  ArePages [] [] = Unit {0}
  ArePages (stack ∷ stacks) (some html ∷ pages) =
      IsPage q (render stack) (scandir (render stack)) html × ArePages stacks pages
  ArePages _ _ = ⊥

  onward-ArePages :
      (p : Place) (next : Next) (rounds : Bytes → List (Option Bytes))
      (stacks : List Bytes → List (List Bytes))
      → next ≡ as_root p
      → HasNames p
      → ((stack : List Bytes) → All IsName stack → ArePages (stacks stack) (rounds (render stack)))
      → ArePages (shown_at stacks p) (onward rounds next)
  onward-ArePages left next rounds stacks e names pages = rw e tt
  onward-ArePages (inside stack) next rounds stacks e names pages = rw e (pages stack names)
  onward-ArePages too_deep next rounds stacks e names pages = rw e tt

  -- If the inputs and the names of a stack are not empty and have no slash, then a session of the
  -- browser from the path of the stack writes one page for each folder that the inputs lead to on
  -- the stack, in turn, up to the end of the session or to a path that does not fit its array.
  -- Each page has the path of the folder and a row for every entry that `scandir` has found there,
  -- in the order in which it sorts them by `Compare`, but for those named `.`: a link with the
  -- name, bold for a folder and in italics for anything else.
  pub browser_pages-ArePages :
      (inputs stack : List Bytes)
      → All IsName inputs
      → All IsName stack
      → ArePages (visited inputs stack) (browser_pages q scandir is_directory inputs (render stack))
  unfolding browser_pages
  browser_pages-ArePages [] stack ns names =
      let (html, writes, is_page) = browser_page-IsPage q (render stack) (scandir (render stack)) in
      rw writes (is_page, tt)
  browser_pages-ArePages (input ∷ inputs) stack ns names =
      let (html, writes, is_page) = browser_page-IsPage q (render stack) (scandir (render stack)) in
      let (agrees, kept) = browse-visit is_directory input stack ns.0 names in
      rw writes (
        is_page,
        onward-ArePages (visit is_directory input stack) _
            (browser_pages q scandir is_directory inputs) (visited inputs) agrees kept
            (λ inner all. browser_pages-ArePages inputs inner ns.1 all),
      )
