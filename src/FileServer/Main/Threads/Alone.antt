-- ===== src/FileServer/Main/Threads/Alone.antt =====
-- What a thread answers whose upload no other thread disturbs.
use network_programming_lab.Prelude.{
  ℕ, true, ◌||◌, List, [], ◌>>=◌, Option, none, some, Bytes, codes, length, ◌≡◌, refl, ap, sym,
  subst, ◌∙◌, leb, ◌==◌, if◌then◌else◌, Bool-cases, inl, inr, drop,
}
use network_programming_lab.Strcmp.{Sorter}
use network_programming_lab.Listing.{Dirent}
use network_programming_lab.FileServer.Text.{strstr, before_quote}
use network_programming_lab.FileServer.Reader.{as_text, is_complete, read_part}
use network_programming_lab.FileServer.Request.{
  Action, closes, undefined, send_icon, list_directory, download, receive_upload, client_action,
}
use network_programming_lab.FileServer.Output.{create_html}
use network_programming_lab.FileServer.Upload.{
  Uploaded, stored, stored_and_overflows, crashes, receive, upload_path, confirm, boundary_fits,
  store, store_named, store_part, upload,
}
use network_programming_lab.FileServer.Client.{
  Files, Reply, sends, faults, uploads, icon_reply, listing_reply, download_header, download_reply,
  client_reply, client_thread,
}
use network_programming_lab.FileServer.Main.{Machine, Server, Connection, reply_to}
use network_programming_lab.FileServer.Main.Threads.{
  Writer, fullpath, create_file, open_file, opening,
}

-- A reply behind which there is no file.
abbrev pub IsFileless : Reply → Type 0
IsFileless (uploads (stored path file response)) = ⊥
IsFileless (uploads (stored_and_overflows path file)) = ⊥
IsFileless reply = Unit {0}

module _ (m : Machine) where
  -- The upload from here on, if nobody else writes to the file.
  abbrev pub finished : Writer → Uploaded
  finished w =
      if boundary_fits w.request
      then confirm m.disk w.path w.name (fullpath w)
          (receive w.content_length w.content_read w.calls w.input)
      else crashes

  abbrev pub Agrees : List ℕ → Option Writer → Reply → Type 0
  Agrees calls none reply = IsFileless reply
  Agrees calls (some w) reply =
      (reply ≡ uploads (finished w)) × (w.total_written ≡ 0) × (w.calls ≡ calls)

  sends-Agrees : (file : Option Bytes) → IsFileless (icon_reply file)
  unfolding icon_reply
  sends-Agrees none = tt
  sends-Agrees (some file) = tt

  listing-Agrees : (html : Option Bytes) → IsFileless (listing_reply html)
  unfolding listing_reply
  listing-Agrees none = tt
  listing-Agrees (some html) = tt

  download-Agrees : (path : Bytes) (file : Option Bytes) → IsFileless (download_reply path file)
  unfolding download_reply
  download-Agrees path none = tt
  download-Agrees path (some file) =
      elim (Bool-cases (leb 1024 (length (download_header path (length file))))) [
        | inl long ↦ rw long tt
        | inr short ↦ rw short tt
      ]

  store-Agrees :
      (calls : List ℕ) (request path name part rest : Bytes) (content_length : ℕ)
      → Agrees calls (create_file m calls request path name content_length part rest) (
          uploads
            (store m.disk request path name (receive content_length (length part) calls rest)))
  unfolding store
  store-Agrees calls request path name part rest content_length =
      elim (Bool-cases (leb 1024 (length name) || length path == 0)) [
        | inl bad ↦ rw bad tt
        | inr good ↦ elim (Bool-cases (m.disk.creates (upload_path path name))) [
          | inl made ↦ rw (good, made) (refl, refl, refl)
          | inr not_made ↦ rw (good, not_made) tt
        ]
      ]

  module _ (calls : List ℕ) (request path part rest : Bytes) (content_length : ℕ) where
    abbrev contents : Bytes
    contents = receive content_length (length part) calls rest

    named-Agrees :
        (name : Option Bytes)
        → Agrees calls
            (name >>= λ name. create_file m calls request path name content_length part rest)
            (uploads (store_named m.disk request path contents name))
    unfolding store_named
    named-Agrees none = tt
    named-Agrees (some name) = store-Agrees calls request path name part rest content_length

    part-Agrees :
        (start : Option Bytes)
        → Agrees calls
            (start >>= λ start. before_quote (drop 10 start) >>= λ name.
              create_file m calls request path name content_length part rest)
            (uploads (store_part m.disk request path contents start))
    unfolding store_part
    part-Agrees none = tt
    part-Agrees (some start) = named-Agrees (before_quote (drop 10 start))

  action-Agrees :
      (q : Sorter Dirent) (files : Files) (calls : List ℕ) (request body : Bytes) (action : Action)
      → Agrees calls
          (open_file m calls request
            (read_part m.behind [] body).0
            (read_part m.behind [] body).1
            action)
          (client_reply q files
            (λ path content_length. upload m.disk m.behind request path content_length calls body)
            action)
  unfolding open_file client_reply upload
  action-Agrees q files calls request body closes = tt
  action-Agrees q files calls request body undefined = tt
  action-Agrees q files calls request body send_icon =
      sends-Agrees (files.contents (codes "favicon.ico"))
  action-Agrees q files calls request body (list_directory path) =
      listing-Agrees (create_html q path (files.scandir path) none)
  action-Agrees q files calls request body (download path) =
      download-Agrees path (files.contents path)
  action-Agrees q files calls request body (receive_upload path content_length) =
      let part = (read_part m.behind [] body).0 in
      elim (Bool-cases (length part == 0)) [
        | inl empty ↦ rw empty tt
        | inr some_byte ↦ elim (Bool-cases (is_complete m.behind part)) [
          | inl complete ↦
              rw (some_byte, complete)
                (part-Agrees calls request path part (read_part m.behind [] body).1 content_length
                  (strstr (as_text m.behind part) (codes "filename=\"")))
          | inr cut ↦ rw (some_byte, cut) tt
        ]
      ]

  -- The answer to a client, in one turn, is that of its upload, or one behind which there is no file.
  pub opening-Agrees :
      (client : Connection) (s : Server)
      → Agrees client.calls (opening m client) (reply_to m client s)
  unfolding opening reply_to client_thread
  opening-Agrees client s =
      let request_body = (read_part m.behind [] client.input).0 in
      action-Agrees m.sorter (record { contents = s.contents; scandir = m.scandir s.contents })
        client.calls (as_text m.behind request_body) (read_part m.behind [] client.input).1
        (client_action m.behind request_body)

  opened-Agrees :
      (client : Connection) (s : Server) (opened : Option Writer)
      → opening m client ≡ opened
      → Agrees client.calls opened (reply_to m client s)
  opened-Agrees client s opened e =
      subst (λ o. Agrees client.calls o (reply_to m client s)) e (opening-Agrees client s)

  -- What there is to an upload that stores a file.
  pub record IsOpened (client : Connection) (path file response : Bytes) : Type 0 where
    pub mine : Writer
    pub opens : opening m client ≡ some mine
    pub fits : boundary_fits mine.request ≡ true
    pub first : mine.total_written ≡ 0
    pub all_calls : mine.calls ≡ client.calls
    pub confirms :
        confirm m.disk mine.path mine.name
          (fullpath mine)
          (receive mine.content_length mine.content_read mine.calls mine.input)
        ≡ stored path file response

  finished-fits :
      (w : Writer) (path file response : Bytes)
      → finished w ≡ stored path file response
      → boundary_fits w.request ≡ true
  finished-fits w path file response h = elim (Bool-cases (boundary_fits w.request)) [
    | inl fits ↦ fits
    | inr long ↦ absurd (subst (λ u. IsFileless (uploads u)) (rw long at h) tt)
  ]

  pub opening-IsOpened :
      (client : Connection) (s : Server) (path file response : Bytes)
      → reply_to m client s ≡ uploads (stored path file response)
      → IsOpened client path file response
  opening-IsOpened client s path file response h = by_opening (opening m client) refl
    where
      upload_of : Reply → Uploaded
      upload_of (sends bytes) = crashes
      upload_of faults = crashes
      upload_of (uploads u) = u

      by_opening :
          (opened : Option Writer) → opening m client ≡ opened → IsOpened client path file response
      by_opening none e = absurd (subst IsFileless h (opened-Agrees client s none e))
      by_opening (some w) e =
          let (done, first, calls) = opened-Agrees client s (some w) e in
          let ends : finished w ≡ stored path file response = ap upload_of (sym done ∙ h) in
          let fits = finished-fits w path file response ends in
          record {
            mine = w;
            opens = e;
            fits = fits;
            first = first;
            all_calls = calls;
            confirms = rw fits at ends;
          }
