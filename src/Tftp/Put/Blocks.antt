-- ===== src/Tftp/Put/Blocks.antt =====
-- The data packets among what an upload has sent, and the packets of a file.
use network_programming_lab.Prelude.{
  ℕ, ◌<◌, List, [], ◌∷◌, ◌++◌, ◌≡◌, refl, ap, sym, ◌∙◌, Bytes, length, drop, append_assoc,
}
use network_programming_lab.Tftp.Link.{Sent, server, peer, datagram, bad_length}
use network_programming_lab.Tftp.Wire.{block_size, next_u16, data_packet}

-- What goes to the peer is data; what goes to the server is the request.
abbrev pub data_sent : List Sent → List Bytes
data_sent [] = []
data_sent (datagram server d ∷ out) = data_sent out
data_sent (datagram (peer _) d ∷ out) = d ∷ data_sent out
data_sent (bad_length _ ∷ out) = data_sent out

pub data_sent-append : (xs ys : List Sent) → data_sent (xs ++ ys) ≡ data_sent xs ++ data_sent ys
data_sent-append [] ys = refl
data_sent-append (datagram server d ∷ xs) ys = data_sent-append xs ys
data_sent-append (datagram (peer a) d ∷ xs) ys = ap (◌∷◌ d) (data_sent-append xs ys)
data_sent-append (bad_length a ∷ xs) ys = data_sent-append xs ys

-- The payloads of data packets, joined.
abbrev pub payloads : List Bytes → Bytes
payloads [] = []
payloads (d ∷ ds) = drop 4 d ++ payloads ds

pub payloads-append : (xs ys : List Bytes) → payloads (xs ++ ys) ≡ payloads xs ++ payloads ys
payloads-append [] ys = refl
payloads-append (d ∷ xs) ys =
    ap (◌++◌ (drop 4 d)) (payloads-append xs ys)
    ∙ sym (append_assoc (drop 4 d) (payloads xs) (payloads ys))

-- The packets carry `content` in blocks of 512 bytes, the last one shorter, numbered from `block`
-- on. Nothing is sent for an empty last block.
pub data Carries : ℕ → Bytes → List Bytes → Type 0 where
  nothing : {block : ℕ} → Carries block [] []
  short :
      {block : ℕ} {chunk : Bytes}
      → 0 < length chunk
      → length chunk < block_size
      → Carries block chunk (data_packet block chunk ∷ [])
  full :
      {block : ℕ} {chunk rest content : Bytes} {ds : List Bytes}
      → length chunk ≡ block_size
      → content ≡ chunk ++ rest
      → Carries (next_u16 block) rest ds
      → Carries block content (data_packet block chunk ∷ ds)
