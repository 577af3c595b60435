-- ===== src/Tests/Files.antt =====
-- The file server on concrete requests, directories and uploads.
use network_programming_lab.Prelude.{
  ◌+◌, true, [], ◌∷◌, ◌++◌, ◌≡◌, refl, arith, none, some, All, Bytes, codes, length, replicate,
  ◌==◌, if◌then◌else◌,
}
use network_programming_lab.Strcmp.{insertion}
use network_programming_lab.Scanf.{skip_spaces, word}
use network_programming_lab.Listing.{Dirent, dt_dir}
use network_programming_lab.FileServer.Text.{strstr}
use network_programming_lab.FileServer.Output.{concat, target, send_all}
use network_programming_lab.FileServer.Output.Laws.{send_all-whole}
use network_programming_lab.FileServer.Reader.{blank_line, zeroed, read_part, read_part_lem}
use network_programming_lab.FileServer.Request.{
  content_length, download, list_directory, request_action,
}
use network_programming_lab.Decimal.{decimal, digits_of}
use network_programming_lab.FileServer.Client.{
  Files, client_thread, sends, download_header, file_name,
}
use network_programming_lab.FileServer.Client.Downloads.{client_thread-download}
use network_programming_lab.FileServer.Request.Links.{IsLinkByte, follow_link}
use network_programming_lab.FileServer.Upload.{
  Disk, stored_and_overflows, upload, confirm, upload_path, boundary_fits,
}
use network_programming_lab.FileServer.Upload.Laws.{IsPart, file_of, upload-stores}
use network_programming_lab.FileServer.Upload.Room.{confirm-overflows}

abbrev request_lines : Bytes
request_lines = codes "GET / HTTP/1.1\r\nHost: a"

reads_to_blank_line :
    read_part zeroed [] (request_lines ++ (blank_line ++ codes "more"))
    ≡ (request_lines ++ blank_line, codes "more")
reads_to_blank_line =
    read_part_lem request_lines (codes "more") (ground arith) (unfold strstr in refl)

send_all-whole_example : send_all (2 ∷ 9 ∷ 1 ∷ []) (codes "abc") ≡ codes "abc"
send_all-whole_example = send_all-whole (2 ∷ 9 ∷ 1 ∷ []) (codes "abc") (ground arith) (omega arith)

-- `send` fails behind two bytes.
breaks_off : send_all (2 ∷ 0 ∷ 1 ∷ []) (codes "abc") ≡ codes "ab"
unfolding send_all
breaks_off = refl

abbrev report : Dirent
report = record { d_type = 8; d_name = codes "report.pdf" }

abbrev photos : Dirent
photos = record { d_type = dt_dir; d_name = codes "photos" }

abbrev report_link : Bytes
report_link = concat (target (codes "/home") report)

links : report_link ≡ codes "/home/report.pdf?"
unfolding target
links = refl

report_link-IsLinkByte : All IsLinkByte report_link
unfolding target
report_link-IsLinkByte = ground arith

follow_link_example :
    request_action (codes "GET" ++ b' ' ∷ (report_link ++ b' ' ∷ codes "HTTP/1.1\r\n\r\n")) ≡ (
      if report.d_type == dt_dir
      then list_directory (upload_path (codes "/home") (codes "report.pdf"))
      else download (upload_path (codes "/home") (codes "report.pdf")))
follow_link_example =
    follow_link (codes "/home") report (codes "HTTP/1.1\r\n\r\n") 0 (unfold target in (omega arith))
      report_link-IsLinkByte (unfold target strstr in refl) (λ dir. absurd (ground arith))
      (unfold content_length target strstr in refl)

abbrev writable : Disk
writable = record { creates = λ path. true; opens = λ path. true }

abbrev part_lines : Bytes
part_lines = codes "--x\r\nContent-Disposition: form-data; name=\"file1\"; filename=\"a.txt\""

abbrev body : Bytes
body = codes "hello\r\n--x--\r\n"

part_lines-IsPart : IsPart part_lines (codes "a.txt") (codes "\r\n\r\n")
part_lines-IsPart = record {
  has_no_nul = ground arith;
  ends_once = unfold strstr in refl;
  names = unfold strstr in refl;
  has_no_quote = ground arith;
}

-- The file ends with the closing boundary.
upload-stores_example :
    file_of (
      upload writable zeroed
        (codes "boundary=x\r\n")
        (codes "/tmp")
        (length (part_lines ++ blank_line) + length body)
        (replicate 14 3)
        (part_lines ++ (blank_line ++ body)))
    ≡ some (upload_path (codes "/tmp") (codes "a.txt"), body)
upload-stores_example =
    upload-stores writable (codes "boundary=x\r\n") (codes "/tmp") part_lines (codes "a.txt")
      (codes "\r\n\r\n") body (replicate 14 3) part_lines-IsPart (ground arith) (omega arith)
      (omega arith) (omega arith) refl (unfold boundary_fits strstr word skip_spaces in refl)

confirm-overflows_example :
    confirm writable
      (codes "/tmp")
      (replicate 508 b'a')
      (upload_path (codes "/tmp") (replicate 508 b'a'))
      body
    ≡ stored_and_overflows (upload_path (codes "/tmp") (replicate 508 b'a')) body
confirm-overflows_example =
    confirm-overflows writable (codes "/tmp") (replicate 508 b'a') body refl (omega arith)

abbrev disk_files : Files
disk_files = record { contents = λ path. some (codes "some bytes"); scandir = λ path. none }

client_thread-download_example :
    client_thread insertion disk_files writable zeroed []
      ((codes "GET" ++ b' ' ∷ (report_link ++ b' ' ∷ codes "HTTP/1.1")) ++ (blank_line ++ []))
    ≡ sends (
        download_header (upload_path (codes "/home") (codes "report.pdf")) 10 ++ codes "some bytes")
client_thread-download_example =
    client_thread-download insertion disk_files writable [] (codes "/home") report
      (codes "HTTP/1.1") [] (codes "some bytes") 0 (λ h. absurd (ground arith))
      (unfold target in (omega arith)) report_link-IsLinkByte (unfold target strstr in refl)
      (unfold content_length target strstr in refl) (unfold target in (ground arith))
      (unfold target strstr in refl) refl
      (unfold download_header upload_path file_name strstr decimal digits_of in (omega arith))
