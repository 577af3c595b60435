-- ===== src/FileShare/Transfer/Agreement.antt =====
-- How the sender and the receiver of a file understand one another.
use network_programming_lab.Prelude.{
  ℕ, ◌%◌, ◌^◌, ◌<◌, false, [], ◌∷◌, ◌++◌, ◌≡◌, ◌≢◌, refl, ap, sym, ◌∙◌, arith, none, some,
  All-append, Bytes, codes, length, append-nil, ◌==◌, if◌then◌else◌,
}
use network_programming_lab.Strcmp.{texts_agree}
use network_programming_lab.Scanf.{IsWord}
use network_programming_lab.Decimal.{decimal, length-decimal_u16, All-IsDigit-decimal}
use network_programming_lab.FileServer.Reader.{HasNoNul}
use network_programming_lab.FileShare.Streams.{buffer_text, next_word, behind_next, next_int}
use network_programming_lab.FileShare.Streams.Laws.{
  next_word-append, behind_next-append, next_word_space, behind_next_space, next_int-decimal,
  buffer_text-eq, word-HasNoNul, digits-HasNoNul,
}
use network_programming_lab.FileShare.Transfer.{
  broadcasts, command, send_port, address_text, awaited_file, target_address,
}

send-IsWord : IsWord (codes "SEND")
send-IsWord = record { some_byte = omega arith; bytes = ground arith }

loopback-IsWord : IsWord (codes "127.0.0.1")
loopback-IsWord = record { some_byte = omega arith; bytes = ground arith }

-- The line that sends a file to a client.
abbrev pub send_line : Bytes → Bytes → Bytes
send_line filename target_name = codes "SEND" ++ b' ' ∷ (filename ++ b' ' ∷ target_name)

-- A word at the end of a text.
next_word_last : (w : Bytes) → IsWord w → next_word w ≡ w
next_word_last w h = ap next_word (sym (append-nil w)) ∙ next_word-append w [] h tt

module _ (filename target_name : Bytes) (file_word : IsWord filename)
    (name_word : IsWord target_name) where
  abbrev behind : Bytes
  behind = filename ++ b' ' ∷ target_name

  cmd-eq : next_word (send_line filename target_name) ≡ codes "SEND"
  cmd-eq = next_word-append (codes "SEND") (b' ' ∷ behind) send-IsWord refl

  behind_cmd : behind_next (send_line filename target_name) ≡ b' ' ∷ behind
  behind_cmd = behind_next-append (codes "SEND") (b' ' ∷ behind) send-IsWord refl

  filename-eq : next_word (behind_next (send_line filename target_name)) ≡ filename
  filename-eq =
      ap next_word behind_cmd
      ∙ next_word_space behind
      ∙ next_word-append filename (b' ' ∷ target_name) file_word refl

  target_name-eq :
      next_word (behind_next (behind_next (send_line filename target_name))) ≡ target_name
  target_name-eq =
      ap (λ t. next_word (behind_next t)) behind_cmd
      ∙ ap next_word (
          behind_next_space behind
          ∙ behind_next-append filename (b' ' ∷ target_name) file_word refl)
      ∙ next_word_space target_name
      ∙ next_word_last target_name name_word

  send_line-HasNoNul : HasNoNul (send_line filename target_name)
  send_line-HasNoNul =
      All-append (λ c. c ≢ 0) (codes "SEND ") behind (ground arith)
        (All-append (λ c. c ≢ 0) filename (b' ' ∷ target_name)
          (word-HasNoNul filename file_word.bytes)
          (omega arith, word-HasNoNul target_name name_word.bytes))

  -- If a file name and a client's name are not empty and have no white space and no NUL, and the
  -- line `SEND` with both has fewer than 1024 bytes, the sender broadcasts that line as it is to
  -- the port for files, and a client that receives it awaits the file, under its name with
  -- `received_` in front, exactly if its own name is the one in the line.
  pub awaited_file-send_line :
      (my_name : Bytes)
      → length (send_line filename target_name) < 1024
      → (broadcasts (send_line filename target_name)
          ≡ some (send_line filename target_name, send_port))
        × (awaited_file my_name (send_line filename target_name)
            ≡ some (
                if texts_agree target_name my_name
                then some (codes "received_" ++ filename)
                else none))
  unfolding broadcasts command awaited_file network_programming_lab.Strcmp.strcmp
  awaited_file-send_line my_name short = (
    refl,
    rw (buffer_text-eq 1024 (send_line filename target_name) send_line-HasNoNul short)
        (rw (cmd-eq, filename-eq, target_name-eq) refl),
  )

-- The sender reads the address that the receiver wrote.
pub target_address-address_text :
    (port : ℕ)
    → port < 2 ^ 16
    → target_address (some (address_text port)) ≡ some (some (codes "127.0.0.1", port))
unfolding target_address address_text
target_address-address_text port small =
    let text = codes "127.0.0.1" ++ b' ' ∷ decimal port in
    let digits : Bytes = decimal port in
    let whole : buffer_text 1024 text ≡ some text =
      buffer_text-eq 1024 text
        (All-append (λ c. c ≢ 0) (codes "127.0.0.1 ") digits (ground arith)
          (digits-HasNoNul digits (All-IsDigit-decimal port)))
        (omega (arith, length-decimal_u16 port small)) in
    let spaced : b' ' ∷ digits ≡ b' ' ∷ (digits ++ []) = ap (◌∷◌ b' ') (sym (append-nil digits)) in
    let number : next_int (behind_next text) ≡ some port =
      ap next_int
        (behind_next-append (codes "127.0.0.1") (b' ' ∷ digits) loopback-IsWord refl ∙ spaced)
      ∙ next_int-decimal port [] tt (omega arith) in
    let ip : next_word text ≡ codes "127.0.0.1" =
      next_word-append (codes "127.0.0.1") (b' ' ∷ digits) loopback-IsWord refl in
    let port_again : port % 2 ^ 16 ≡ port = omega arith in
    let some_byte : (length text == 0) ≡ false = ground arith in
    rw some_byte (rw whole (rw (number, ip, port_again) refl))
