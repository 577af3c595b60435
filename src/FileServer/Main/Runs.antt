-- ===== src/FileServer/Main/Runs.antt =====
-- The clients of the server in their order, and what they leave of a file.
use network_programming_lab.Prelude.{
  Bool, true, false, List, [], ◌∷◌, ◌++◌, ◌≡◌, refl, ap, sym, ◌∙◌, All, Bytes, if◌then◌else◌,
  Bool-cases, inl, inr,
}
use network_programming_lab.FileServer.Upload.{refused, stored, stored_and_overflows, crashes}
use network_programming_lab.FileServer.Client.{Reply, sends, faults, uploads}
use network_programming_lab.FileServer.Main.{
  Machine, Server, Connection, reply_to, written, behind_reply, serve_all,
}

module _ (m : Machine) where
  abbrev pub go_on : Connection → List Connection → Server → List Reply × Server
  go_on client clients s =
      let reply = reply_to m client s in
      let (replies, last) = serve_all m clients (behind_reply m reply s) in (reply ∷ replies, last)

  pub serve_all_running :
      (client : Connection) (clients : List Connection) (s : Server)
      → s.runs ≡ true
      → serve_all m (client ∷ clients) s ≡ go_on client clients s
  unfolding serve_all
  serve_all_running client clients s h = ap (λ b. if b then go_on client clients s else ([], s)) h

  pub serve_all_one :
      (client : Connection) (s : Server)
      → s.runs ≡ true
      → (serve_all m (client ∷ []) s).0 ≡ reply_to m client s ∷ []
  serve_all_one client s h =
      ap (λ p. p.0) (serve_all_running client [] s h) ∙ unfold serve_all in refl

  serve_all_stopped :
      (clients : List Connection) (s : Server) → s.runs ≡ false → serve_all m clients s ≡ ([], s)
  unfolding serve_all
  serve_all_stopped [] s h = refl
  serve_all_stopped (client ∷ clients) s h =
      ap (λ b. if b then go_on client clients s else ([], s)) h

  abbrev and_then : List Connection → List Reply × Server → List Reply
  and_then clients (replies, last) = replies ++ (serve_all m clients last).0

  pub serve_all-append :
      (xs ys : List Connection) (s : Server)
      → (serve_all m (xs ++ ys) s).0 ≡ and_then ys (serve_all m xs s)
  serve_all-append [] ys s = unfold serve_all in refl
  serve_all-append (client ∷ xs) ys s = elim (Bool-cases s.runs) [
    | inl runs ↦
        ap (λ p. p.0) (serve_all_running client (xs ++ ys) s runs)
        ∙ ap (◌∷◌ (reply_to m client s))
            (serve_all-append xs ys (behind_reply m (reply_to m client s) s))
        ∙ sym (ap (and_then ys) (serve_all_running client xs s runs))
    | inr stops ↦
        ap (λ p. p.0) (serve_all_stopped (client ∷ (xs ++ ys)) s stops)
        ∙ sym (
            ap (and_then ys) (serve_all_stopped (client ∷ xs) s stops)
            ∙ ap (λ p. p.0) (serve_all_stopped ys s stops))
  ]

-- The connection of a client that has uploaded, or not, to another file.
module _ (m : Machine) (path : Bytes) where
  abbrev pub OtherFile : Reply → Type 0
  OtherFile (uploads (stored fullpath file response)) = m.same_file path fullpath ≡ false
  OtherFile (uploads (stored_and_overflows fullpath file)) = m.same_file path fullpath ≡ false
  OtherFile reply = Unit {0}

  behind_reply-keeps :
      (reply : Reply) (s : Server)
      → OtherFile reply
      → (behind_reply m reply s).contents path ≡ s.contents path
  unfolding written
  behind_reply-keeps (sends bytes) s h = refl
  behind_reply-keeps faults s h = refl
  behind_reply-keeps (uploads (refused response)) s h = refl
  behind_reply-keeps (uploads (stored fullpath file response)) s h = rw h refl
  behind_reply-keeps (uploads (stored_and_overflows fullpath file)) s h = rw h refl
  behind_reply-keeps (uploads crashes) s h = refl

  abbrev pub KeepsFile : Server → List Reply × Server → Type 0
  KeepsFile s (replies, last) = All OtherFile replies → last.contents path ≡ s.contents path

  in_either :
      (b : Bool) (s : Server) (served left : List Reply × Server)
      → KeepsFile s served
      → KeepsFile s left
      → KeepsFile s (if b then served else left)
  in_either true s served left h k = h
  in_either false s served left h k = k

  pub serve_all-keeps :
      (clients : List Connection) (s : Server) → KeepsFile s (serve_all m clients s)
  unfolding serve_all
  serve_all-keeps [] s = λ h. refl
  serve_all-keeps (client ∷ clients) s =
      let reply = reply_to m client s in
      let next = behind_reply m reply s in
      in_either s.runs s (reply ∷ (serve_all m clients next).0, (serve_all m clients next).1)
        ([], s) (λ h. serve_all-keeps clients next h.1 ∙ behind_reply-keeps reply s h.0) (λ h. refl)
