-- ===== src/HttpServer/Answer/Laws.antt =====
-- Which requests get which answer, and when a page is sent whole.
use network_programming_lab.Prelude.{
  ℕ, ◌+◌, ◌-◌, ◌≤◌, ◌<◌, true, false, ◌||◌, ◌∷◌, ◌++◌, ◌≡◌, ◌≢◌, ◌↔◌, ap, arith, inl, inr,
  Bool-cases, Bytes, codes, length, take, ltb, leb, ◌==◌, if◌then◌else◌, length-append, length-take,
  take-eq_of_le,
}
use network_programming_lab.Strcmp.{texts_agree, texts_agree_iff}
use network_programming_lab.Scanf.{
  c_string, IsWord, skip_spaces-two_words, word-two_words, second-two_words, c_string-append,
}
use network_programming_lab.HttpServer.Answer.{
  answer_size, http_header, send_response, Answer, icon, listing, overflow, choose, handle_client,
}

module _ (stale method path rest : Bytes) (is_method : IsWord method) (is_path : IsWord path) where
  abbrev request : Bytes
  request = method ++ b' ' ∷ (path ++ b' ' ∷ rest)

  choose-request : choose stale request ≡ (
      if leb 16 (length method) || leb 512 (length path)
      then overflow
      else if texts_agree path (codes "/favicon.ico")
      then icon
      else listing)
  unfolding choose
  choose-request = rw (
    skip_spaces-two_words method path rest is_method is_path,
    word-two_words method path rest is_method is_path,
    second-two_words method path rest is_method is_path,
    some_path,
  )
    where
      some_path : (length path == 0) ≡ false
      some_path = ground (arith, is_path.some_byte)

-- Which answer goes with which two words of a request.
pub data Dispatch (method path : Bytes) : Answer → Type 0 where
  long_method : 16 ≤ length method → Dispatch method path overflow
  long_path : 512 ≤ length path → Dispatch method path overflow
  asks_icon : length method < 16 → path ≡ codes "/favicon.ico" → Dispatch method path icon
  asks_page :
      length method < 16
      → length path < 512
      → path ≢ codes "/favicon.ico"
      → Dispatch method path listing

dispatch :
    (method path : Bytes)
    → Dispatch method path (
        if leb 16 (length method) || leb 512 (length path)
        then overflow
        else if texts_agree path (codes "/favicon.ico")
        then icon
        else listing)
dispatch method path = elim (Bool-cases (leb 16 (length method))) [
  | inl h ↦ rw h (long_method (ground arith))
  | inr h ↦ rw h (elim (Bool-cases (leb 512 (length path))) [
    | inl k ↦ rw k (long_path (ground arith))
    | inr k ↦ rw k (elim (Bool-cases (texts_agree path (codes "/favicon.ico"))) [
      | inl e ↦ rw e (asks_icon (ground arith) ((texts_agree_iff path _).0 e))
      | inr e ↦ rw e (
          asks_page (ground arith) (ground arith)
            (ground (arith, e, texts_agree_iff path (codes "/favicon.ico"))))
    ])
  ])
]

-- A request that starts with two words, each followed by a space, is answered with the icon if the
-- second is `/favicon.ico` and with the listing for any other path, whatever `path` held before;
-- unless the first word has 16 bytes or more or the second 512, which are written outside their
-- buffers.
pub handle_client-Dispatch :
    (stale method path rest : Bytes)
    → IsWord method
    → IsWord path
    → Dispatch method path (handle_client stale (method ++ b' ' ∷ (path ++ b' ' ∷ rest)))
unfolding handle_client
handle_client-Dispatch stale method path rest is_method is_path =
    rw
      (
        some_bytes,
        c_string-append method (path ++ b' ' ∷ rest) is_method.bytes,
        c_string-append path rest is_path.bytes,
        choose-request stale method path (c_string rest) is_method is_path,
      )
      (dispatch method path)
  where
    some_bytes : ltb 0 (length (method ++ b' ' ∷ (path ++ b' ' ∷ rest))) ≡ true
    some_bytes = rw (length-append method (b' ' ∷ (path ++ b' ' ∷ rest))) (ground arith)

length-whole : (n : ℕ) (xs : Bytes) → (take n xs ≡ xs) ↔ (length xs ≤ n)
length-whole n xs = (λ h. omega (arith, length-take n xs, ap length h), take-eq_of_le n xs)

-- `send_response` sends the header and the whole page exactly if the two together have fewer than
-- 8192 bytes; else it sends something other than what its header announces.
pub send_response_whole_iff :
    (html : Bytes)
    → let header = http_header (codes "text/html; charset=UTF-8") (length html) in
      (send_response html ≡ header ++ html) ↔ (length header + length html < answer_size)
unfolding send_response
send_response_whole_iff html =
    let header = http_header (codes "text/html; charset=UTF-8") (length html) in
    let fits = length-whole (answer_size - 1) (header ++ html) in
    (
      λ h. omega (arith, length-append header html, fits.0 h),
      λ h. fits.1 (omega (arith, length-append header html)),
    )
