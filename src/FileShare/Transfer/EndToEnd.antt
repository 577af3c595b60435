-- ===== src/FileShare/Transfer/EndToEnd.antt =====
-- A line at the prompt of one client, and the file that another one stores for it.
use network_programming_lab.Prelude.{
  ℕ, ◌%◌, ◌^◌, ◌≤◌, ◌<◌, Bool, true, List, ◌++◌, ◌≡◌, refl, arith, some, All, Bytes, codes, length,
  take, take-eq_of_le,
}
use network_programming_lab.Strcmp.{texts_agree, texts_agree_iff}
use network_programming_lab.Scanf.{IsWord}
use network_programming_lab.FileServer.Output.{concat}
use network_programming_lab.FileShare.Transfer.{
  broadcasts, send_port, address_text, send_file, file_sent, send_to_target, receives,
  receive_offer,
}
use network_programming_lab.FileShare.Transfer.Contents.{receive_file-send_file}
use network_programming_lab.FileShare.Transfer.Agreement.{
  send_line, awaited_file-send_line, target_address-address_text,
}

module _ (filename target_name contents : Bytes) (port : ℕ) (calls : List ℕ)
    (connects : Bytes × ℕ → Bool) where
  -- If a file name and a client's name are not empty and have no white space and no NUL, the line
  -- `SEND` with both has fewer than 1024 bytes, the port fits 16 bits, the sender gets the
  -- receiver's answer and can connect to its address, the file can be opened and has fewer than
  -- 2^32 bytes, and `recv` takes the four bytes of the size at once and then at least one byte in
  -- each of at least as many calls as the file has bytes: the line is broadcast as it is to the
  -- port for files, the sender sends the file, and the client with that name stores exactly its
  -- contents, under its name with `received_` in front.
  pub send_line-receives :
      IsWord filename
      → IsWord target_name
      → length (send_line filename target_name) < 1024
      → port < 2 ^ 16
      → connects (codes "127.0.0.1", port) ≡ true
      → length contents < 2 ^ 32
      → All (λ n. 0 < n) calls
      → length contents ≤ length calls
      → (broadcasts (send_line filename target_name)
          ≡ some (send_line filename target_name, send_port))
        × (send_to_target connects (some contents) (some (address_text port))
            ≡ some (file_sent (send_file contents)))
        × (receive_offer target_name port 4 calls
              (concat (send_file contents))
              (send_line filename target_name)
            ≡ some (receives (address_text port) (codes "received_" ++ filename) contents))
  unfolding send_to_target receive_offer
  send_line-receives file_word name_word short small reached fits positive enough =
      let (sent, awaited) =
        awaited_file-send_line filename target_name file_word name_word target_name short in
      let own : texts_agree target_name target_name ≡ true =
        (texts_agree_iff target_name target_name).1 refl in
      let whole : take (length contents % 2 ^ 32) contents ≡ contents =
        take-eq_of_le _ contents (omega arith) in
      (
        sent,
        rw (target_address-address_text port small, reached) refl,
        rw (awaited, own) (rw (receive_file-send_file contents calls positive enough, whole) refl),
      )
