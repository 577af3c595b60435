-- ===== src/FileServer/Output.antt =====
-- np20.c, `Append`, `CreateHTML` and `Send` (lines 21 to 31, 48 to 112 and 143 to 155).
pub mod Laws
use network_programming_lab.Prelude.{
  ℕ, ◌+◌, ◌-◌, Bool, true, false, List, [], ◌∷◌, ◌++◌, Option, none, some, Bytes, codes, length,
  get_or, take, drop, ltb, ◌==◌, if◌then◌else◌,
}
use network_programming_lab.Strcmp.{Sorter}
use network_programming_lab.Listing.{Dirent, dt_dir, compare_dirents}

-- The text at `*destination`, which is NULL at first.
unfoldable pub append : Bytes → Option Bytes → Option Bytes
append str none = some str
append str (some old) = some (old ++ str)

unfoldable pub append_all : List Bytes → Option Bytes → Option Bytes
append_all [] output = output
append_all (str ∷ strs) output = append_all strs (append str output)

abbrev pub concat : List Bytes → Bytes
concat [] = []
concat (x ∷ xs) = x ++ concat xs

abbrev pub page_start : Bytes → List Bytes
page_start path =
    codes "<html>"
    ∷ codes "<head><style>"
    ∷ codes "body { font-family: Arial; margin: 20px; }"
    ∷ codes
        ".upload-form { background: #f0f0f0; padding: 15px; border-radius: 5px; margin-bottom: 20px; }"
    ∷ codes "input[type=file] { margin: 10px 0; }"
    ∷ codes
        "input[type=submit] { background: #4CAF50; color: white; padding: 10px 20px; border: none; cursor: pointer; }"
    ∷ codes "</style></head><body>"
    ∷ codes "<h2>Current Directory: "
    ∷ path
    ∷ codes "</h2>"
    ∷ codes "<div class=\"upload-form\">"
    ∷ codes "<h3>Upload File</h3>"
    ∷ codes "<form method=\"post\" enctype=\"multipart/form-data\">"
    ∷ codes "<input type=\"file\" id=\"file1\" name=\"file1\" required/><br>"
    ∷ codes "<input type=\"submit\" value=\"Upload to this directory\">"
    ∷ codes "</form></div>"
    ∷ codes "<h3>Directory Contents:</h3>"
    ∷ []

-- The slash between the path and a name. An empty path has no last byte to look at: `ClientThread`
-- ends before it would list one.
abbrev pub slash : Bytes → List Bytes
slash path = if get_or path (length path - 1) 0 == b'/' then [] else codes "/" ∷ []

-- The calls of `Append` for one entry: the target of its link, and the rest.
unfoldable pub target : Bytes → Dirent → List Bytes
target path e =
    path ∷ slash path ++ (e.d_name ∷ (if e.d_type == dt_dir then [] else codes "?" ∷ []))

unfoldable pub entry : Bytes → Dirent → List Bytes
entry path e =
    let open_tag = if e.d_type == dt_dir then codes "<b>" else codes "<i>" in
    let close_tag = if e.d_type == dt_dir then codes "</b>" else codes "</i>" in
    codes "<a href=\"" ∷ target path e
    ++ (codes "\">" ∷ open_tag ∷ e.d_name ∷ close_tag ∷ codes "</a>" ∷ codes "<br>" ∷ [])

unfoldable pub entries : Bytes → List Dirent → List Bytes
entries path [] = []
entries path (e ∷ es) = entry path e ++ entries path es

-- What `scandir` finds, sorted by `Compare`; `none` if it fails.
abbrev pub scanned : Sorter Dirent → Option (List Dirent) → List Dirent
scanned q none = []
scanned q (some found) = q.sort compare_dirents found

unfoldable pub create_html :
    Sorter Dirent → Bytes → Option (List Dirent) → Option Bytes → Option Bytes
create_html q path found output =
    append_all (page_start path ++ (entries path (scanned q found) ++ codes "</body></html>" ∷ []))
      output

-- The bytes that `Send` gets across: each call of `send` takes as many bytes as it says, up to all
-- that are left; 0 stands for any answer that is not positive.
unfoldable pub send_all : List ℕ → Bytes → Bytes
send_all [] bytes = []
send_all (answer ∷ answers) bytes =
    let onward = send_all answers (drop answer bytes) in
    if length bytes == 0 then [] else if answer == 0 then [] else take answer bytes ++ onward
