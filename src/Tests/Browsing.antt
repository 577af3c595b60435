-- ===== src/Tests/Browsing.antt =====
-- A session at the prompt of the directory browser.
use network_programming_lab.Prelude.{
  Bool, true, [], ◌∷◌, ◌≡◌, refl, arith, some, Option, List, Bytes, codes,
}
use network_programming_lab.Strcmp.{strcmp, insertion}
use network_programming_lab.Listing.{Dirent, dt_dir, compare_dirents}
use network_programming_lab.Pages.{browser_page, anchor, anchors, listed, browser_pages}
use network_programming_lab.Pages.Session.{ArePages, visited, browser_pages-ArePages}
use network_programming_lab.FileServer.Output.{append, append_all}
use network_programming_lab.Browser.{
  browse, browse_all, update_root_up, update_root_down, up_loop, at,
}
use network_programming_lab.Browser.Paths.{IsName, render}
use network_programming_lab.Browser.Session.{visit_all, as_root, browse_all-visit_all}

abbrev always : Bytes → Bool
always path = true

abbrev usr : Bytes
usr = codes "usr"

abbrev lib : Bytes
lib = codes "lib"

abbrev dots : Bytes
dots = codes ".."

usr-IsName : IsName usr
usr-IsName = record { some_byte = omega arith; no_slash = ground arith }

lib-IsName : IsName lib
lib-IsName = record { some_byte = omega arith; no_slash = ground arith }

dots-IsName : IsName dots
dots-IsName = record { some_byte = omega arith; no_slash = ground arith }

walks : browse_all always (usr ∷ lib ∷ dots ∷ []) (codes "/") ≡ at (codes "/usr")
unfolding browse_all browse update_root_up update_root_down up_loop strcmp
walks = refl

-- The root has no parent.
stays : update_root_up (codes "/") ≡ codes "/"
unfolding update_root_up
stays = refl

browse_all-visit_all_example :
    browse_all always (lib ∷ dots ∷ dots ∷ lib ∷ []) (render (usr ∷ []))
    ≡ as_root (visit_all always (lib ∷ dots ∷ dots ∷ lib ∷ []) (usr ∷ []))
browse_all-visit_all_example =
    browse_all-visit_all always (lib ∷ dots ∷ dots ∷ lib ∷ []) (usr ∷ [])
      (lib-IsName, (dots-IsName, (dots-IsName, (lib-IsName, tt)))) (usr-IsName, tt)

abbrev plain : Dirent
plain = record { d_type = 8; d_name = codes "notes" }

abbrev itself : Dirent
itself = record { d_type = dt_dir; d_name = codes "." }

-- Every folder holds itself and a file.
abbrev holds : Bytes → Option (List Dirent)
holds path = some (plain ∷ itself ∷ [])

browser_pages-ArePages_example :
    ArePages insertion holds always
      (visited insertion holds always (lib ∷ dots ∷ []) (usr ∷ []))
      (browser_pages insertion holds always (lib ∷ dots ∷ []) (render (usr ∷ [])))
browser_pages-ArePages_example =
    browser_pages-ArePages insertion holds always (lib ∷ dots ∷ []) (usr ∷ [])
      (lib-IsName, (dots-IsName, tt)) (usr-IsName, tt)

-- The folder itself is not listed.
lists_folder :
    browser_page insertion usr (holds usr)
    ≡ some (codes "<html><h2>usr</h2><a href=\"notes\"><i>notes</i></a><br></html>")
unfolding browser_page append_all append anchors anchor listed compare_dirents strcmp
lists_folder = refl
