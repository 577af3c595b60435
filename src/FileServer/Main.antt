-- ===== src/FileServer/Main.antt =====
-- np20.c, `main` (lines 383 to 404), with clients that are served one after the other.
pub mod Runs
pub mod Forms
pub mod Uploads
pub mod Threads
use network_programming_lab.Prelude.{
  ℕ, Bool, true, false, List, [], ◌∷◌, ◌++◌, Option, none, some, Bytes, if◌then◌else◌,
}
use network_programming_lab.Strcmp.{Sorter}
use network_programming_lab.Listing.{Dirent}
use network_programming_lab.FileServer.Upload.{
  Disk, Uploaded, refused, stored, stored_and_overflows, crashes,
}
use network_programming_lab.FileServer.Client.{Files, Reply, sends, faults, uploads, client_thread}
use network_programming_lab.Sockets.Start.{
  Call, socket, bind, listen, Started, started, attempt, unchecked,
}

-- How the socket is opened: it is not looked at whether there is one, and it is not closed if it
-- cannot be bound.
unfoldable pub set_up : (Call → Bool) → Started
unfolding attempt unchecked
set_up works = unchecked socket (attempt works (bind 8888) [] (unchecked (listen 10) started))

-- What can be read at each path.
abbrev pub Contents : Type 0
Contents = Bytes → Option Bytes

-- The computer of the server: how directories are listed, and by what they hold; what may be created
-- and opened; which paths lead to the same file; and the memory behind a buffer.
pub record Machine : Type 0 where
  pub sorter : Sorter Dirent
  pub scandir : Contents → Bytes → Option (List Dirent)
  pub disk : Disk
  pub same_file : Bytes → Bytes → Bool
  pub behind : Bytes → Bytes

pub record Server : Type 0 where
  pub contents : Contents
  pub runs : Bool  -- no client has made it leave a buffer

-- A connection: the answers of `recv` for the body of an upload, and all that the client sends.
pub record Connection : Type 0 where
  pub calls : List ℕ
  pub input : Bytes

module _ (m : Machine) where
  -- What is handed to `Send` for a client.
  unfoldable pub reply_to : Connection → Server → Reply
  reply_to client s =
      client_thread m.sorter (record { contents = s.contents; scandir = m.scandir s.contents })
        m.disk m.behind client.calls client.input

  -- A file that has been written, and can be read if it may be opened.
  unfoldable pub written : Bytes → Bytes → Contents → Contents
  written fullpath file contents path =
      if m.same_file path fullpath
      then (if m.disk.opens fullpath then some file else none)
      else contents path

  -- What a file holds that was being written when the server left a buffer is left open.
  abbrev pub behind_upload : Uploaded → Server → Server
  behind_upload (refused response) s = s
  behind_upload (stored fullpath file response) s = record s {
    contents = written fullpath file s.contents;
  }
  behind_upload (stored_and_overflows fullpath file) s = record {
    contents = written fullpath file s.contents;
    runs = false;
  }
  behind_upload crashes s = record s { runs = false }

  abbrev pub behind_reply : Reply → Server → Server
  behind_reply (sends bytes) s = s
  behind_reply faults s = record s { runs = false }
  behind_reply (uploads uploaded) s = behind_upload uploaded s

  -- The loop, up to the first client that makes the server leave a buffer: what each client is answered,
  -- and the server behind it.
  unfoldable pub serve_all : List Connection → Server → List Reply × Server
  unfolding reply_to
  serve_all [] s = ([], s)
  serve_all (client ∷ clients) s =
      let reply = reply_to client s in
      let (replies, last) = serve_all clients (behind_reply reply s) in
      if s.runs then (reply ∷ replies, last) else ([], s)
