-- ===== src/Tests/Together.antt =====
-- Two uploads to the file server whose turns alternate.
use network_programming_lab.Prelude.{
  ℕ, zero, suc, true, List, [], ◌∷◌, ◌≡◌, refl, arith, none, some, Bytes, codes, length, replicate,
  get_elem?,
}
use network_programming_lab.Strcmp.{strcmp, texts_agree_iff}
use network_programming_lab.Scanf.{skip_spaces, word, read_digits, behind_word, c_string}
use network_programming_lab.Url.{url_decode}
use network_programming_lab.Decimal.{decimal, digits_of}
use network_programming_lab.FileServer.Text.{strstr, before_quote}
use network_programming_lab.FileServer.Reader.{read_part, is_complete, as_text}
use network_programming_lab.FileServer.Request.{
  content_length, client_action, request_action, scan_int,
}
use network_programming_lab.FileServer.Upload.{
  stored, upload_path, confirm, html_response, ok_response, boundary_fits,
}
use network_programming_lab.FileServer.Client.{uploads}
use network_programming_lab.FileServer.Main.{Connection}
use network_programming_lab.FileServer.Main.Forms.{form, reply_to-form}
use network_programming_lab.FileServer.Main.Threads.{
  Writer, Thread, starting, writing, answered, Shared, seen, updated, put_at, opening, start,
  close_file, write_round, step, step_at, Turn, turn, run,
}
use network_programming_lab.FileServer.Main.Threads.Turns.{run-uploaded}
use network_programming_lab.Tests.Sequence.{
  computer, folder, note, part_lines, body, form_rest, file, note-IsForm,
}

abbrev other_writer : Writer
other_writer = record {
  request = [];
  path = folder;
  name = codes "b.txt";
  content_length = 6;
  content_read = 0;
  total_written = 0;
  calls = 4 ∷ 4 ∷ [];
  input = codes "others";
}

abbrev empty_disk : Shared
empty_disk = record { files = λ path. none; runs = true }

abbrev both_turns : ℕ → List Turn
both_turns zero = []
both_turns (suc n) = turn 0 ∷ turn 1 ∷ both_turns n

abbrev client : Connection
client = form folder form_rest part_lines body (replicate 14 3)

abbrev confirmation : Bytes
confirmation = ok_response (html_response (codes "a.txt") (length body) file folder)

abbrev last : Shared × List Thread
last = run computer (both_turns 16) empty_disk (writing other_writer ∷ starting client ∷ [])

other_file : last.0.files (codes "/tmp/b.txt") ≡ some (codes "others")
unfolding run step_at step start opening close_file write_round updated put_at read_part is_complete
    client_action request_action content_length strstr skip_spaces word behind_word scan_int
    read_digits url_decode c_string boundary_fits confirm html_response ok_response upload_path
    decimal digits_of as_text strcmp before_quote
other_file = refl

run-uploaded_example :
    (get_elem? last.1 1 ≡ some (answered (uploads (stored file body confirmation))))
    × (last.0.files file ≡ some body)
run-uploaded_example =
    run-uploaded computer empty_disk (writing other_writer ∷ []) client (both_turns 16) file body
      confirmation
      (reply_to-form computer (seen computer empty_disk) folder form_rest part_lines
        (codes "\r\n\r\n") body note (replicate 14 3) refl refl refl note-IsForm)
      ((texts_agree_iff file file).1 refl) (unfold upload_path strcmp in refl, tt) tt (omega arith)
      (unfold run step_at step start opening close_file write_round updated put_at read_part
          is_complete client_action request_action content_length strstr skip_spaces word
          behind_word scan_int read_digits url_decode c_string boundary_fits confirm html_response
          ok_response upload_path decimal digits_of as_text strcmp before_quote in
        refl)
