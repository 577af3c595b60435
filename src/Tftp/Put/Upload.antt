-- ===== src/Tftp/Put/Upload.antt =====
-- `tftp_put` as a whole: the request, the loop, and the ways out.
use network_programming_lab.Prelude.{
  ◌≤◌, true, Bool, false, List, [], ◌∷◌, ◌++◌, ◌≡◌, refl, ap, arith, some, All, Bytes, length,
  take-append,
}
use network_programming_lab.Tftp.Link.{Event, datagram, server, continues, succeeds}
use network_programming_lab.Tftp.Wire.{buffer_size, op_wrq}
use network_programming_lab.Tftp.Wire.Format.{request_format, build_request-eq}
use network_programming_lab.Tftp.Put.{Put, requested, put_start, tftp_put}
use network_programming_lab.Tftp.Put.Blocks.{data_sent, Carries}
use network_programming_lab.Tftp.Put.Invariant.{IsSafe, IsValid, Fits, put_run-IsSafe}
use network_programming_lab.Tftp.Put.Steps.{Acknowledges}
use network_programming_lab.Tftp.Put.Delivery.{Acknowledges-Uploads}

-- What `tftp_put` has when its loop begins.
pub record IsRequested (content name : Bytes) (s : Put) : Type 0 where
  pub none_yet : s.retries ≡ 0
  pub before_first : s.block_num ≡ 0
  pub full : length s.buffer ≡ buffer_size
  pub still_open : s.closing ≡ false
  pub unread_all : s.unread ≡ content
  pub asked : s.out ≡ datagram server (request_format op_wrq name) ∷ []

module _ (content name buffer : Bytes) (full : length buffer ≡ buffer_size)
    (small : length name ≤ 507) where
  -- With the file and the socket open, exactly the request of RFC 1350 is sent.
  pub put_start-IsRequested :
      (s : Put) × (put_start (some content) true name buffer ≡ continues s)
      × IsRequested content name s
  unfolding put_start
  put_start-IsRequested =
      let (rest, built, fits) = build_request-eq op_wrq name buffer full small in
      let packet = request_format op_wrq name in
      (
        requested content (packet ++ rest) (length packet),
        rw built refl,
        record {
          none_yet = refl;
          before_first = refl;
          full = fits;
          still_open = refl;
          unread_all = refl;
          asked = ap (λ d. datagram server d ∷ []) (take-append packet rest);
        },
      )

  -- If the socket opens, the name has at most 507 bytes, and the events acknowledge request and
  -- blocks of `content` (with at most five timeouts in a row and any number of packets that are
  -- neither errors nor the awaited acknowledgement in between), then `tftp_put` returns 0, and the
  -- data packets that it has sent carry `content` in blocks of 512 bytes, numbered from 1 on, with
  -- a shorter last one unless nothing is left for it.
  pub tftp_put-Acknowledges :
      (es : List Event)
      → Acknowledges 0 0 content es
      → (t : Put) × (tftp_put (some content) true name buffer es ≡ succeeds t)
        × Carries 1 content (data_sent t.out)
  unfolding tftp_put
  tftp_put-Acknowledges es a =
      let (s, starts, r) = put_start-IsRequested in
      let (t, runs, ds, sent, carried) =
        Acknowledges-Uploads s a r.still_open r.before_first r.none_yet r.unread_all (omega arith)
          r.full in
      (t, rw starts runs, rw (sent, r.asked) carried)

IsRequested-IsValid :
    {content name : Bytes} {s : Put} → IsRequested content name s → IsValid content s
IsRequested-IsValid r = record {
  few = omega (arith, r.none_yet);
  wide = r.full;
  sent = record { parts = rw r.asked r.unread_all; numbered = rw r.asked tt };
  counted = λ _. rw (r.before_first, r.asked);
  ended = λ h. cc (r.still_open);
}

-- Whatever events arrive, as long as each datagram has between 2 and 516 bytes, an error packet
-- has a NUL behind its header, and the name has at most 507 bytes: `tftp_put` of a file that could
-- be opened has no undefined behaviour; the data packets sent are numbered 1, 2, ... modulo 65536
-- and their payloads followed by what is left to read are the file; in the loop the count of
-- timeouts is at most five and the block number counts the data packets sent; and if it returns 0,
-- their payloads are the whole file.
pub tftp_put-IsSafe :
    (content name buffer : Bytes) (full : length buffer ≡ buffer_size) (small : length name ≤ 507)
    (socket_opened : Bool) (es : List Event)
    → All Fits es
    → IsSafe content (tftp_put (some content) socket_opened name buffer es)
unfolding tftp_put
tftp_put-IsSafe content name buffer full small true es fits =
    let (s, starts, r) = put_start-IsRequested content name buffer full small in
    rw starts (put_run-IsSafe content es s fits (IsRequested-IsValid r))
tftp_put-IsSafe content name buffer full small false es fits =
    unfold put_start in (record { parts = refl; numbered = tt })
