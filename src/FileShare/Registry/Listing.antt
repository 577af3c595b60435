-- ===== src/FileShare/Registry/Listing.antt =====
-- The client reads the listing that the server has written.
use network_programming_lab.Prelude.{
  ℕ, ◌≤◌, ◌<◌, [], ◌∷◌, ◌++◌, ◌≡◌, ◌≢◌, refl, arith, some, All, All-append, Bytes, codes, length,
}
use network_programming_lab.Scanf.{IsWord}
use network_programming_lab.Decimal.{decimal, All-IsDigit-decimal}
use network_programming_lab.FileServer.Reader.{HasNoNul}
use network_programming_lab.FileShare.Streams.{int_max}
use network_programming_lab.FileShare.Streams.Laws.{
  Ends, next_word-append, behind_next-append, next_word_space, behind_next_space, next_int-decimal,
  behind_int-decimal, buffer_text-eq, word-HasNoNul, digits-HasNoNul,
}
use network_programming_lab.FileShare.Registry.{
  Clients, entries_text, list_response, loop_rounds, read_entries, read_listing,
}

-- Neither name nor address has white space or a NUL in it, and none is empty.
abbrev pub IsEntry : Bytes × Bytes → Type 0
IsEntry client = IsWord client.0 × IsWord client.1

entries_text-Ends : (clients : Clients) → Ends (entries_text clients)
unfolding entries_text
entries_text-Ends [] = tt
entries_text-Ends (client ∷ rest) = refl

read_entries-text :
    (clients : Clients)
    → All IsEntry clients
    → read_entries (length clients) (entries_text clients) ≡ clients
unfolding read_entries entries_text
read_entries-text [] h = refl
read_entries-text (client ∷ rest) h =
    let behind = client.1 ++ entries_text rest in
    let ends = entries_text-Ends rest in
    rw
      (
        next_word_space (client.0 ++ b' ' ∷ behind),
        behind_next_space (client.0 ++ b' ' ∷ behind),
        next_word-append client.0 (b' ' ∷ behind) h.0.0 refl,
        behind_next-append client.0 (b' ' ∷ behind) h.0.0 refl,
        next_word_space behind,
        behind_next_space behind,
        next_word-append client.1 (entries_text rest) h.0.1 ends,
        behind_next-append client.1 (entries_text rest) h.0.1 ends,
        read_entries-text rest h.1,
      )
      refl

loop_rounds-eq : (n : ℕ) → n ≤ int_max → loop_rounds n ≡ n
loop_rounds-eq n few = ground arith

list-IsWord : IsWord (codes "LIST")
list-IsWord = record { some_byte = omega arith; bytes = ground arith }

entries_text-HasNoNul : (clients : Clients) → All IsEntry clients → HasNoNul (entries_text clients)
unfolding entries_text
entries_text-HasNoNul [] h = tt
entries_text-HasNoNul (client ∷ rest) h = (
  omega arith,
  All-append (λ c. c ≢ 0) client.0 _ (word-HasNoNul client.0 h.0.0.bytes)
      (
        omega arith,
        All-append (λ c. c ≢ 0) client.1 _ (word-HasNoNul client.1 h.0.1.bytes)
            (entries_text-HasNoNul rest h.1),
      ),
)

list_response-HasNoNul :
    (clients : Clients) → All IsEntry clients → HasNoNul (list_response clients)
unfolding list_response
list_response-HasNoNul clients h =
    let digits =
      digits-HasNoNul (decimal (length clients)) (All-IsDigit-decimal (length clients)) in
    All-append (λ c. c ≢ 0) (codes "LIST ") _ (ground arith)
      (All-append (λ c. c ≢ 0) (decimal (length clients)) _ digits
        (entries_text-HasNoNul clients h))

-- If no name and no address of the map is empty or has white space or a NUL, the map has at most
-- 2^31 - 1 entries, and the answer to `LIST` has fewer than 4096 bytes, a client that receives the
-- answer reads exactly the entries of the map off it, in order.
pub read_listing-list_response :
    (clients : Clients)
    → All IsEntry clients
    → length clients ≤ int_max
    → length (list_response clients) < 4096
    → read_listing (list_response clients) ≡ some clients
unfolding read_listing
read_listing-list_response clients h few short =
    rw (buffer_text-eq 4096 (list_response clients) (list_response-HasNoNul clients h) short) (
      unfold list_response in
      (rw
        (
          behind_next-append (codes "LIST")
              (b' ' ∷ (decimal (length clients) ++ entries_text clients)) list-IsWord refl,
          next_int-decimal (length clients) (entries_text clients) (entries_text-Ends clients) few,
          behind_int-decimal (length clients) (entries_text clients) (entries_text-Ends clients)
              few,
          loop_rounds-eq (length clients) few,
          read_entries-text clients h,
        )
        refl))
