-- ===== src/FileServer/Upload/Room.antt =====
-- How much room the answer to an upload needs.
use network_programming_lab.Prelude.{
  ℕ, ◌+◌, ◌*◌, ◌≤◌, true, ◌∷◌, ◌++◌, ◌≡◌, arith, Bytes, codes, length, length-append,
}
use network_programming_lab.Decimal.{decimal}
use network_programming_lab.FileServer.Upload.{
  upload_path, html_response, ok_response, stored_and_overflows, Disk, confirm,
}

inner_length : (a b c : Bytes) → length b + length c ≤ length (a ++ (b ++ c))
inner_length a b c = omega (arith, length-append a (b ++ c), length-append b c)

length-upload_path :
    (path name : Bytes) → length path + length name ≤ length (upload_path path name)
unfolding upload_path
length-upload_path path name =
    ground (arith, length-append path name, length-append path (b'/' ∷ name))

length-nested :
    (a name b size c fullpath d path e : Bytes)
    → length name + length fullpath + length path
      ≤ length (a ++ (name ++ (b ++ (size ++ (c ++ (fullpath ++ (d ++ (path ++ e))))))))
length-nested a name b size c fullpath d path e =
    let inside = fullpath ++ (d ++ (path ++ e)) in
    omega (
      arith,
      inner_length a name (b ++ (size ++ (c ++ inside))),
      inner_length b size (c ++ inside),
      inner_length c fullpath (d ++ (path ++ e)),
      inner_length d path e,
    )

length-html_response :
    (name : Bytes) (size : ℕ) (fullpath path : Bytes)
    → length name + length fullpath + length path ≤ length (html_response name size fullpath path)
unfolding html_response
length-html_response name size fullpath path =
    length-nested (codes "<html><body><h2>Upload Successful!</h2><p>File: <b>") name
      (codes "</b></p><p>Size: <b>") (decimal size) (codes "</b> bytes</p><p>Location: <b>")
      fullpath (codes "</b></p><a href=\"") path (codes "\">Back to directory</a></body></html>")

-- An answer to a confirmed upload names the file twice.
length-ok_response :
    (path name contents : Bytes)
    → 2 * (length path + length name)
      ≤ length (ok_response (html_response name (length contents) (upload_path path name) path))
unfolding ok_response
length-ok_response path name contents =
    let fullpath = upload_path path name in
    let html = html_response name (length contents) fullpath path in
    omega (
      arith,
      length-html_response name (length contents) fullpath path,
      length-upload_path path name,
      inner_length (codes "HTTP/1.1 200 OK\r\nContent-Type: text/html\r\nContent-Length: ")
          (decimal (length html)) (codes "\r\n\r\n" ++ html),
      length-append (codes "\r\n\r\n") html,
    )

-- If the file of an upload can be opened again, and path and name have 512 bytes or more together,
-- then its answer is written past the end of `response`.
pub confirm-overflows :
    (disk : Disk) (path name contents : Bytes)
    → disk.opens (upload_path path name) ≡ true
    → 512 ≤ length path + length name
    → confirm disk path name (upload_path path name) contents
      ≡ stored_and_overflows (upload_path path name) contents
unfolding confirm
confirm-overflows disk path name contents opened long =
    rw opened (ground (arith, length-ok_response path name contents))
