-- ===== src/FileServer/Upload/Laws.antt =====
-- What an upload leaves in the file.
use network_programming_lab.Prelude.{
  ℕ, zero, suc, ◌+◌, ◌-◌, ◌≤◌, ◌<◌, true, false, List, [], ◌∷◌, ◌++◌, ◌≡◌, ◌≢◌, refl, ap, ◌∙◌,
  arith, Option, none, some, All, Bytes, codes, length, take, drop, length-append, length-take,
  length-drop, le→ltb, lt→ltb, leb, ◌==◌,
}
use network_programming_lab.FileServer.Text.{strstr, contains, contains-behind, before_quote}
use network_programming_lab.FileServer.Reader.{
  blank_line, zeroed, HasNoNul, read_part_lem, HasNoNul-prefix, as_text-zeroed, is_complete-zeroed,
}
use network_programming_lab.FileServer.Upload.{
  receive, upload_path, Uploaded, refused, stored, stored_and_overflows, crashes, Disk, confirm,
  boundary_fits, store, upload,
}

chunk-append-drop :
    (n m : ℕ) (xs : Bytes) → let chunk = take n (take m xs) in chunk ++ drop (length chunk) xs ≡ xs
chunk-append-drop zero m xs = refl
chunk-append-drop (suc n) zero xs = refl
chunk-append-drop (suc n) (suc m) [] = refl
chunk-append-drop (suc n) (suc m) (x ∷ xs) = ap (◌∷◌ x) (chunk-append-drop n m xs)

length-chunk :
    (n m : ℕ) (x : ℕ) (xs : Bytes)
    → 0 < n
    → 0 < m
    → let r = length (take n (take m (x ∷ xs))) in (0 < r) × (r ≤ length (x ∷ xs))
length-chunk n m x xs h k =
    let outer = length-take n (take m (x ∷ xs)) in
    let inner = length-take m (x ∷ xs) in
    (omega (arith, h, k, outer, inner), omega (arith, h, k, outer, inner))

receive-whole :
    (content_length content_read : ℕ) (calls : List ℕ) (input : Bytes)
    → All (λ n. 0 < n) calls
    → length input ≤ length calls
    → content_read + length input ≡ content_length
    → receive content_length content_read calls input ≡ input
unfolding receive
receive-whole len done [] [] h enough all = refl
receive-whole len done [] (x ∷ input) h enough all = absurd (omega arith)
receive-whole len done (n ∷ calls) [] h enough all = rw (le→ltb done len (omega arith)) refl
receive-whole len done (n ∷ calls) (x ∷ input) h enough all =
    rw (lt→ltb done len (omega arith), some_read)
      (rw
        (receive-whole len (done + r) calls (drop r (x ∷ input)) h.1 (omega (arith, left, size.0))
          (omega (arith, left, size.1)))
        (chunk-append-drop n 1024 (x ∷ input)))
  where
    r : ℕ
    r = length (take n (take 1024 (x ∷ input)))

    size : (0 < r) × (r ≤ length (x ∷ input))
    size = length-chunk n 1024 x input h.0 (omega arith)

    some_read : (r == 0) ≡ false
    some_read = ground (arith, size.0)

    left : length (drop r (x ∷ input)) ≡ length (x ∷ input) - r
    left = length-drop r (x ∷ input)

before_quote-append :
    (name after : Bytes)
    → All (λ c. c ≢ b'"') name
    → before_quote (name ++ b'"' ∷ after) ≡ some name
unfolding before_quote
before_quote-append [] after h = refl
before_quote-append (c ∷ name) after h = ground (arith, h.0, before_quote-append name after h.1)

-- The file that an upload leaves: its path and what is in it.
abbrev pub file_of : Uploaded → Option (Bytes × Bytes)
file_of (refused response) = none
file_of (stored fullpath contents response) = some (fullpath, contents)
file_of (stored_and_overflows fullpath contents) = some (fullpath, contents)
file_of crashes = none

file_of-confirm :
    (disk : Disk) (path name fullpath contents : Bytes)
    → file_of (confirm disk path name fullpath contents) ≡ some (fullpath, contents)
unfolding confirm
file_of-confirm disk path name fullpath contents = ground arith

file_of-store :
    (disk : Disk) (request path name contents : Bytes)
    → length name < 1024
    → 0 < length path
    → disk.creates (upload_path path name) ≡ true
    → boundary_fits request ≡ true
    → file_of (store disk request path name contents) ≡ some (upload_path path name, contents)
unfolding store
file_of-store disk request path name contents short some_byte created fits =
    rw (is_short, is_some, created, fits)
      (file_of-confirm disk path name (upload_path path name) contents)
  where
    is_short : leb 1024 (length name) ≡ false
    is_short = ground arith

    is_some : (length path == 0) ≡ false
    is_some = ground arith

-- A part as browsers send it: lines without a NUL, the first `filename="` of which stands before a
-- name and a quote, up to the empty line.
pub record IsPart (lines name after : Bytes) : Type 0 where
  pub has_no_nul : HasNoNul (lines ++ blank_line)
  pub ends_once : contains (lines ++ codes "\r\n\r") blank_line ≡ false
  pub names :
      strstr (lines ++ blank_line) (codes "filename=\"")
      ≡ some (codes "filename=\"" ++ (name ++ b'"' ∷ after))
  pub has_no_quote : All (λ c. c ≢ b'"') name

pub upload-store :
    (disk : Disk) (request path lines name after content : Bytes) (calls : List ℕ)
    → IsPart lines name after
    → All (λ n. 0 < n) calls
    → length content ≤ length calls
    → upload disk zeroed request path
        (length (lines ++ blank_line) + length content)
        calls
        (lines ++ (blank_line ++ content))
      ≡ store disk request path name content
unfolding upload
upload-store disk request path lines name after content calls part h enough =
    let header = lines ++ blank_line in
    let some_bytes : (length header == 0) ≡ false =
      ground (arith, length-append lines blank_line) in
    rw
      (
        read_part_lem lines content (HasNoNul-prefix lines blank_line part.has_no_nul)
            part.ends_once,
        some_bytes,
        is_complete-zeroed header part.has_no_nul,
        contains-behind lines blank_line,
        as_text-zeroed header part.has_no_nul,
        part.names,
        before_quote-append name after part.has_no_quote,
        receive-whole (length header + length content) (length header) calls content h enough refl,
      )
      refl

-- In zeroed memory, for a part whose first `filename="` stands before a name of fewer than 1024
-- bytes and a quote, a path that is not empty, and a request whose boundary fits its buffer: if
-- the file can be created and `recv` goes on delivering until `Content-Length` is used up, then
-- the upload leaves the file at the path and the name, and in it all that stands behind the empty
-- line of the part, the closing boundary included.
pub upload-stores :
    (disk : Disk) (request path lines name after content : Bytes) (calls : List ℕ)
    → IsPart lines name after
    → All (λ n. 0 < n) calls
    → length content ≤ length calls
    → length name < 1024
    → 0 < length path
    → disk.creates (upload_path path name) ≡ true
    → boundary_fits request ≡ true
    → file_of (
        upload disk zeroed request path
          (length (lines ++ blank_line) + length content)
          calls
          (lines ++ (blank_line ++ content)))
      ≡ some (upload_path path name, content)
upload-stores disk request path lines name after content calls part h enough short some_byte created
      fits =
    ap file_of (upload-store disk request path lines name after content calls part h enough)
    ∙ file_of-store disk request path name content short some_byte created fits
