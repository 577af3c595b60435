-- ===== src/FileServer/Main/Threads.antt =====
-- np20.c, `ClientThread` (lines 157 to 381) for clients at the same time: the threads share the disk,
-- and turns of other threads come between the calls of `recv` in an upload. A file has what was handed to `fwrite`.
pub mod Alone
pub mod Kept
pub mod Numbered
pub mod Turns
use network_programming_lab.Prelude.{
  ℕ, zero, suc, ◌+◌, ◌-◌, Bool, true, false, ◌||◌, List, [], ◌∷◌, ◌++◌, Option, none, some, Bytes,
  codes, length, take, drop, replicate, overlay, ltb, leb, ◌==◌, if◌then◌else◌, ◌>>=◌,
}
use network_programming_lab.FileServer.Text.{strstr, before_quote}
use network_programming_lab.FileServer.Reader.{as_text, is_complete, read_part}
use network_programming_lab.FileServer.Request.{
  Action, closes, undefined, send_icon, list_directory, download, receive_upload, client_action,
}
use network_programming_lab.FileServer.Upload.{
  Uploaded, refused, stored, stored_and_overflows, crashes, upload_path, confirm, boundary_fits,
}
use network_programming_lab.FileServer.Client.{Reply, sends, faults, uploads}
use network_programming_lab.FileServer.Main.{Contents, Machine, Server, Connection, reply_to}

-- An upload whose file is open, in its loop. `request` is the text in `requestBody`.
pub record Writer : Type 0 where
  pub request : Bytes
  pub path : Bytes
  pub name : Bytes
  pub content_length : ℕ
  pub content_read : ℕ
  pub total_written : ℕ
  pub calls : List ℕ
  pub input : Bytes

abbrev pub fullpath : Writer → Bytes
fullpath w = upload_path w.path w.name

pub data Thread : Type 0 where
  starting : Connection → Thread
  writing : Writer → Thread
  answered : Reply → Thread

-- What the threads share: what each file holds, and whether no thread has left a buffer.
pub record Shared : Type 0 where
  pub files : Contents
  pub runs : Bool

-- A write at a position, behind zeros if the file has become shorter.
unfoldable pub put_at : ℕ → Bytes → Bytes → Bytes
put_at position chunk file =
    take position (file ++ replicate (position - length file) 0)
    ++ overlay chunk (drop position file)

abbrev pub held : Option Bytes → Bytes
held none = []
held (some file) = file

module _ (m : Machine) where
  abbrev pub find_name : Bytes → Option Bytes
  find_name part =
      if length part == 0
      then none
      else if is_complete m.behind part
      then strstr (as_text m.behind part) (codes "filename=\"")
      else none

  abbrev pub create_file : List ℕ → Bytes → Bytes → Bytes → ℕ → Bytes → Bytes → Option Writer
  create_file calls request path name content_length part rest =
      if leb 1024 (length name) || length path == 0
      then none
      else if m.disk.creates (upload_path path name)
      then some (record {
        request = request;
        path = path;
        name = name;
        content_length = content_length;
        content_read = length part;
        total_written = 0;
        calls = calls;
        input = rest;
      })
      else none

  -- Up to the call that creates the file of an upload, if there is one.
  unfoldable pub open_file : List ℕ → Bytes → Bytes → Bytes → Action → Option Writer
  open_file calls request part rest (receive_upload path content_length) = do
    filename_start ← find_name part
    name ← before_quote (drop 10 filename_start)
    create_file calls request path name content_length part rest
  open_file calls request part rest _ = none

  unfoldable pub opening : Connection → Option Writer
  unfolding open_file
  opening client =
      let request_body = (read_part m.behind [] client.input).0 in
      let body = (read_part m.behind [] client.input).1 in
      open_file client.calls (as_text m.behind request_body) (read_part m.behind [] body).0
        (read_part m.behind [] body).1 (client_action m.behind request_body)

  unfoldable pub updated : Bytes → Bytes → Contents → Contents
  updated name file files path = if m.same_file path name then some file else files path

  -- The disk as a request sees it that is answered at once.
  abbrev pub seen : Shared → Server
  seen s = record {
    contents = λ path. if m.disk.opens path then s.files path else none;
    runs = s.runs;
  }

  abbrev pub works : Reply → Bool
  works (sends bytes) = true
  works faults = false
  works (uploads (refused response)) = true
  works (uploads (stored fullpath file response)) = true
  works (uploads (stored_and_overflows fullpath file)) = false
  works (uploads crashes) = false

  abbrev pub answers : Reply → Shared → Shared × Thread
  answers reply s = (record s { runs = works reply }, answered reply)

  -- The first turn: `fopen` empties the file.
  unfoldable pub start : Connection → Shared → Option Writer → Shared × Thread
  start client s none = answers (reply_to m client (seen s)) s
  start client s (some w) =
      let created = record s { files = updated (fullpath w) [] s.files } in
      if boundary_fits w.request then (created, writing w) else answers (uploads crashes) created

  -- The file is closed, and opened again for its size.
  unfoldable pub close_file : Writer → Shared → Shared × Thread
  close_file w s =
      answers (uploads (confirm m.disk w.path w.name (fullpath w) (held (s.files (fullpath w))))) s

  abbrev pub wrote : Writer → List ℕ → Bytes → Writer
  wrote w calls chunk = record w {
    content_read = w.content_read + length chunk;
    total_written = w.total_written + length chunk;
    calls = calls;
    input = drop (length chunk) w.input;
  }

  abbrev pub write_chunk : Writer → Bytes → Shared → Shared
  write_chunk w chunk s = record s {
    files =
        updated (fullpath w) (put_at w.total_written chunk (held (s.files (fullpath w)))) s.files;
  }

  -- A round of the loop: `recv` and `fwrite`.
  unfoldable pub write_round : Writer → Shared → List ℕ → Shared × Thread
  write_round w s [] = close_file w s
  write_round w s (n ∷ calls) =
      let chunk = take n (take 1024 w.input) in
      if ltb w.content_read w.content_length
      then (if length chunk == 0
          then close_file w s
          else (write_chunk w chunk s, writing (wrote w calls chunk)))
      else close_file w s

  unfoldable pub step : Shared → Thread → Shared × Thread
  step s (starting client) = start client s (opening client)
  step s (writing w) = write_round w s w.calls
  step s (answered reply) = (s, answered reply)

  -- The turn of the thread with a number, if there is one and the server runs.
  unfoldable pub step_at : ℕ → Shared → List Thread → Shared × List Thread
  step_at i s [] = (s, [])
  step_at zero s (t ∷ ts) = let moved = step s t in (moved.0, moved.1 ∷ ts)
  step_at (suc i) s (t ∷ ts) = let moved = step_at i s ts in (moved.0, t ∷ moved.1)

pub data Turn : Type 0 where
  accepts : Connection → Turn
  turn : ℕ → Turn

unfoldable pub run : Machine → List Turn → Shared → List Thread → Shared × List Thread
run m [] s ts = (s, ts)
run m (accepts client ∷ turns) s ts =
    if s.runs then run m turns s (ts ++ starting client ∷ []) else (s, ts)
run m (turn i ∷ turns) s ts =
    let moved = step_at m i s ts in if s.runs then run m turns moved.0 moved.1 else (s, ts)
