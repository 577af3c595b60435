-- ===== src/Tests/Sequence.antt =====
-- A file that is uploaded to the file server and then downloaded.
use network_programming_lab.Prelude.{
  true, [], ◌∷◌, ◌++◌, ◌≡◌, refl, arith, none, All, Bytes, codes, length, replicate,
}
use network_programming_lab.Strcmp.{insertion, texts_agree, texts_agree_iff}
use network_programming_lab.Scanf.{skip_spaces, word, read_digits}
use network_programming_lab.Decimal.{decimal, digits_of}
use network_programming_lab.Listing.{Dirent}
use network_programming_lab.FileServer.Text.{strstr}
use network_programming_lab.FileServer.Output.{target}
use network_programming_lab.FileServer.Reader.{zeroed, read_part, is_complete}
use network_programming_lab.FileServer.Request.{content_length, client_action, scan_int}
use network_programming_lab.FileServer.Upload.{
  stored, upload_path, html_response, ok_response, boundary_fits,
}
use network_programming_lab.FileServer.Client.{
  sends, uploads, download_header, file_name, client_reply, client_thread,
}
use network_programming_lab.FileServer.Main.{
  Machine, Server, Connection, reply_to, written, serve_all,
}
use network_programming_lab.FileServer.Main.Forms.{IsForm, IsLink, form, link}
use network_programming_lab.FileServer.Main.Runs.{OtherFile}
use network_programming_lab.FileServer.Main.Uploads.{serve_all-uploaded}

abbrev pub computer : Machine
computer = record {
  sorter = insertion;
  scandir = λ contents path. none;
  disk = record { creates = λ path. true; opens = λ path. true };
  same_file = texts_agree;
  behind = zeroed;
}

abbrev empty_server : Server
empty_server = record { contents = λ path. none; runs = true }

abbrev pub folder : Bytes
folder = codes "/tmp"

abbrev pub note : Dirent
note = record { d_type = 8; d_name = codes "a.txt" }

abbrev pub part_lines : Bytes
part_lines = codes "--x\r\nContent-Disposition: form-data; name=\"file1\"; filename=\"a.txt\""

abbrev pub body : Bytes
body = codes "hello\r\n--x--\r\n"

abbrev pub form_rest : Bytes
form_rest = codes "HTTP/1.1\r\nContent-Length: 85\r\nContent-Type: multipart/form-data; boundary=x"

abbrev link_rest : Bytes
link_rest = codes "HTTP/1.1"

pub note-IsForm : IsForm folder form_rest part_lines (codes "\r\n\r\n") body note (replicate 14 3)
note-IsForm = record {
  request = (
    ground arith,
    unfold strstr in refl,
    unfold content_length strstr skip_spaces scan_int read_digits in refl,
  );
  part = record {
    has_no_nul = ground arith;
    ends_once = unfold strstr in refl;
    names = unfold strstr in refl;
    has_no_quote = ground arith;
  };
  path_bytes = ground arith;
  some_byte = omega arith;
  short_path = omega arith;
  short_name = omega arith;
  boundary = unfold boundary_fits strstr word skip_spaces in refl;
  room =
      unfold html_response ok_response upload_path decimal digits_of in (omega arith, omega arith);
  positive = ground arith;
  enough = omega arith;
}

note-IsLink : IsLink folder link_rest body note 0
note-IsLink = record {
  request = (
    unfold target in (ground arith),
    unfold target strstr in refl,
    unfold content_length target strstr in refl,
  );
  is_file = λ h. absurd (ground arith);
  short = unfold target in (omega arith);
  bytes = unfold target in (ground arith);
  no_icon = unfold target strstr in refl;
  header = unfold download_header upload_path file_name strstr decimal digits_of in (omega arith);
}

-- A client that closes its connection at once.
abbrev pub silent : Connection
silent = record { calls = []; input = [] }

abbrev pub file : Bytes
file = upload_path folder (codes "a.txt")

abbrev written_server : Server
written_server = record empty_server { contents = written computer file body empty_server.contents }

serve_all-uploaded_example :
    (serve_all computer
      (form folder form_rest part_lines body (replicate 14 3)
        ∷ ((silent ∷ []) ++ link folder note link_rest [] [] ∷ []))
      empty_server).0
    ≡ uploads
        (stored file body (ok_response (html_response (codes "a.txt") (length body) file folder)))
      ∷ ((serve_all computer (silent ∷ []) written_server).0
          ++ sends (download_header file (length body) ++ body) ∷ [])
serve_all-uploaded_example =
    serve_all-uploaded computer empty_server folder form_rest part_lines (codes "\r\n\r\n") body
      note (replicate 14 3) (silent ∷ []) link_rest [] 0 [] refl refl
      ((texts_agree_iff file file).1 refl) refl refl note-IsForm answered running note-IsLink
  where
    answered : All (OtherFile computer file) (serve_all computer (silent ∷ []) written_server).0
    answered =
        unfold serve_all reply_to client_thread client_action client_reply read_part is_complete in
        (tt, tt)

    running : (serve_all computer (silent ∷ []) written_server).1.runs ≡ true
    running =
        unfold serve_all reply_to client_thread client_action client_reply read_part is_complete in
        refl
