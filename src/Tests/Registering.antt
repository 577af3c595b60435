-- ===== src/Tests/Registering.antt =====
-- Two clients of the file sharing server.
use mathlib.Core.Quot
use network_programming_lab.Prelude.{
  true, ◌↔◌, refl, ℕ, ◌==◌, ◌%◌, ◌^◌, ◌<◌, List, [], ◌∷◌, ◌++◌, ◌≡◌, arith, some, Bytes, codes,
  length, take, if◌then◌else◌,
}
use network_programming_lab.Strcmp.{strcmp}
use network_programming_lab.Scanf.{IsWord, c_string}
use network_programming_lab.Decimal.{decimal, digits_of}
use network_programming_lab.FileServer.Output.{concat}
use network_programming_lab.FileShare.Registry.{
  Clients, Event, at_reg_port, at_list_port, run_server, handle_reg, handle_list, registered,
  insert, list_response, entries_text, read_listing,
}
use network_programming_lab.FileShare.Registry.Lookup.{
  lookup, last_address, HasTexts, run_server-lookup,
}
use network_programming_lab.FileShare.Registry.Answers.{IsMap, run_server-read_listing}
use network_programming_lab.FileShare.Registry.Canonical.{Texts, View, run_server-View}
use network_programming_lab.FileShare.Streams.{buffer_text}
use network_programming_lab.FileShare.Transfer.{
  send_file, receive_file, broadcasts, send_port, address_text, file_sent, send_to_target, receives,
  receive_offer,
}
use network_programming_lab.FileShare.Transfer.Contents.{receive_file-send_file}
use network_programming_lab.FileShare.Transfer.Agreement.{send_line}
use network_programming_lab.FileShare.Transfer.EndToEnd.{send_line-receives}

abbrev dotted : ℕ → Bytes
dotted s_addr = if s_addr == 7 then codes "10.0.0.7" else codes "10.0.0.8"

abbrev arrivals : List Event
arrivals =
    at_reg_port 7 (codes "REG ann")
    ∷ at_list_port (codes "LIST")
    ∷ at_reg_port 8 (codes "REG ann")
    ∷ []

run_server-lookup_example :
    (known : Clients) × (run_server dotted arrivals [] ≡ some known)
    × ((name : Bytes) → lookup name known ≡ last_address dotted name arrivals (lookup name []))
run_server-lookup_example =
    run_server-lookup dotted arrivals [] (
      (ground arith, omega arith),
      ((ground arith, omega arith), ((ground arith, omega arith), tt)),
    )

ann-IsWord : IsWord (codes "ann")
ann-IsWord = record { some_byte = omega arith; bytes = ground arith }

bob-IsWord : IsWord (codes "bob")
bob-IsWord = record { some_byte = omega arith; bytes = ground arith }

first-IsWord : IsWord (codes "10.0.0.7")
first-IsWord = record { some_byte = omega arith; bytes = ground arith }

second-IsWord : IsWord (codes "10.0.0.8")
second-IsWord = record { some_byte = omega arith; bytes = ground arith }

abbrev two : Clients
two = (codes "ann", codes "10.0.0.7") ∷ (codes "bob", codes "10.0.0.8") ∷ []

listing : list_response two ≡ codes "LIST 2 ann 10.0.0.7 bob 10.0.0.8"
unfolding list_response entries_text decimal digits_of
listing = refl

fits_buffer : length (list_response two) < 4096
unfolding list_response entries_text decimal digits_of
fits_buffer = omega arith

-- Two clients that register, the second one behind a question for the listing.
abbrev registrations : List Event
registrations =
    at_reg_port 8 (codes "REG bob")
    ∷ at_list_port (codes "LIST")
    ∷ at_reg_port 7 (codes "REG ann")
    ∷ []

registrations-HasTexts : HasTexts registrations
registrations-HasTexts =
    ((ground arith, omega arith), ((ground arith, omega arith), ((ground arith, omega arith), tt)))

runs_to_two : run_server dotted registrations [] ≡ some two
unfolding run_server handle_reg handle_list registered insert buffer_text c_string strcmp
runs_to_two = refl

run_server-read_listing_example :
    (read_listing (list_response two) ≡ some two)
    × IsMap two
    × ((name : Bytes) → lookup name two ≡ last_address dotted name registrations (lookup name []))
run_server-read_listing_example =
    run_server-read_listing dotted registrations two registrations-HasTexts
      ((λ reg. (bob-IsWord, second-IsWord)), ((λ reg. (ann-IsWord, first-IsWord)), tt)) runs_to_two
      (omega arith) fits_buffer

-- The same from the same addresses, in another order, one of them after a mistake.
abbrev second_try : List Event
second_try =
    at_reg_port 8 (codes "REG ann")
    ∷ at_reg_port 7 (codes "REG ann")
    ∷ at_reg_port 8 (codes "REG bob")
    ∷ []

abbrev first_texts : Texts dotted
first_texts = (registrations, registrations-HasTexts)

second_try-HasTexts : HasTexts second_try
second_try-HasTexts =
    ((ground arith, omega arith), ((ground arith, omega arith), ((ground arith, omega arith), tt)))

abbrev second_texts : Texts dotted
second_texts = (second_try, second_try-HasTexts)

run_server-View_example :
    (run_server dotted registrations [] ≡ run_server dotted second_try [])
    ↔ (◌≡◌ {A = View dotted} (Quot.mk first_texts) (Quot.mk second_texts))
run_server-View_example = run_server-View dotted first_texts second_texts

abbrev note : Bytes
note = codes "note"

receive_file-send_file_example :
    receive_file 4 (2 ∷ 1 ∷ 9 ∷ 1 ∷ []) (concat (send_file note))
    ≡ some (take (length note % 2 ^ 32) note)
receive_file-send_file_example =
    receive_file-send_file note (2 ∷ 1 ∷ 9 ∷ 1 ∷ [])
      (omega arith, (omega arith, (omega arith, (omega arith, tt)))) (omega arith)

note-IsWord : IsWord (codes "note")
note-IsWord = record { some_byte = omega arith; bytes = ground arith }

send_line-receives_example :
    (broadcasts (send_line (codes "note") (codes "ann"))
      ≡ some (send_line (codes "note") (codes "ann"), send_port))
    × (send_to_target (λ address. true) (some note) (some (address_text 40000))
        ≡ some (file_sent (send_file note)))
    × (receive_offer
          (codes "ann")
          40000
          4
          (2 ∷ 1 ∷ 9 ∷ 1 ∷ [])
          (concat (send_file note))
          (send_line (codes "note") (codes "ann"))
        ≡ some (receives (address_text 40000) (codes "received_" ++ codes "note") note))
send_line-receives_example =
    send_line-receives (codes "note") (codes "ann") note 40000 (2 ∷ 1 ∷ 9 ∷ 1 ∷ [])
      (λ address. true) note-IsWord ann-IsWord (omega arith) (omega arith) refl (omega arith)
      (omega arith, (omega arith, (omega arith, (omega arith, tt)))) (omega arith)
