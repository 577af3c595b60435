-- ===== src/Chat/Datagrams/Senders.antt =====
-- The clients are those who have sent something, each once.
use network_programming_lab.Prelude.{
  ℕ, true, not, ◌&&◌, List, [], ◌∷◌, ◌++◌, ◌≡◌, ◌↔◌, ap, ◌∙◌, ==_refl, refl, arith, Bytes,
  if◌then◌else◌, ltb, suc, ◌+◌, take,
}
use network_programming_lab.Chat.Datagrams.{
  ClientInfo, is_client, knows, remember, message, recipients, Event, fails, datagram, Server,
  start, step, run,
}

-- The senders of the datagrams among the events.
abbrev pub senders : List Event → List ClientInfo
senders [] = []
senders (fails ∷ es) = senders es
senders (datagram c buffer ∷ es) = c ∷ senders es

-- How often a client stands in a list.
abbrev pub times : ClientInfo → List ClientInfo → ℕ
times d [] = 0
times d (e ∷ es) = if is_client e d then suc (times d es) else times d es

-- Two addresses are the same if they agree in the host and in the port.
is_client_iff : (a b : ClientInfo) → (is_client a b ≡ true) ↔ (a ≡ b)
is_client_iff a b = (
  λ h.
      let host : a.s_addr ≡ b.s_addr = ground (arith, h) in
      let port : a.sin_port ≡ b.sin_port = ground (arith, h) in
      ap (λ x. record { s_addr = x; sin_port = a.sin_port }) host
      ∙ ap (λ x. record { s_addr = b.s_addr; sin_port = x }) port,
  λ same. rw same (ground (arith, ==_refl b.s_addr, ==_refl b.sin_port)),
)

times-append :
    (d : ClientInfo) (xs ys : List ClientInfo) → times d (xs ++ ys) ≡ times d xs + times d ys
times-append d [] ys = omega arith
times-append d (x ∷ xs) ys = ground (arith, times-append d xs ys)

times-recipients :
    (c d : ClientInfo) (xs : List ClientInfo)
    → times d (recipients c xs) ≡ (if is_client c d then 0 else times d xs)
unfolding recipients
times-recipients c d [] = ground arith
times-recipients c d (x ∷ xs) = ground (arith, times-recipients c d xs)

knows-times : (c : ClientInfo) (xs : List ClientInfo) → knows c xs ≡ ltb 0 (times c xs)
unfolding knows
knows-times c [] = refl
knows-times c (x ∷ xs) = ground (arith, knows-times c xs)

times-remember :
    (c d : ClientInfo) (xs : List ClientInfo)
    → times d (remember c xs)
      ≡ (if is_client c d && not (ltb 0 (times c xs)) then suc (times d xs) else times d xs)
unfolding remember
times-remember c d xs = ground (arith, knows-times c xs, times-append d xs (c ∷ []))

times_same :
    (c d : ClientInfo) (xs : List ClientInfo) → is_client c d ≡ true → times c xs ≡ times d xs
times_same c d [] h = refl
times_same c d (x ∷ xs) h = ground (arith, times_same c d xs)

times-run :
    (inet_ntop : ℕ → Bytes) (es : List Event) (d : ClientInfo) (s : Server)
    → times d (run inet_ntop es s).clients ≡ (
        if ltb 0 (times d s.clients)
        then times d s.clients
        else if knows d (senders es)
        then 1
        else 0)
unfolding run step knows
times-run inet_ntop [] d s = ground arith
times-run inet_ntop (fails ∷ es) d s = times-run inet_ntop es d s
times-run inet_ntop (datagram c buffer ∷ es) d s = ground (
  arith,
  times-run inet_ntop es d (step inet_ntop (datagram c buffer) s),
  times-remember c d s.clients,
  times_same c d s.clients,
)

-- Whatever datagrams the UDP server has received, the next one is sent on, behind the address of
-- its sender, exactly once to each address that a datagram came from before, except that of its
-- sender, and to no other; addresses are the same exactly if host and port are.
pub step-everyone :
    (inet_ntop : ℕ → Bytes) (es : List Event) (c : ClientInfo) (buffer : Bytes)
    → let s = run inet_ntop es start in
      (to : List ClientInfo) × ((step inet_ntop (datagram c buffer) s).sent
        ≡ s.sent ++ (message inet_ntop c (take 4095 buffer), to) ∷ [])
      × ((d : ClientInfo)
          → (times d to ≡ (if not (is_client c d) && knows d (senders es) then 1 else 0))
            × ((is_client c d ≡ true) ↔ (c ≡ d)))
unfolding step
step-everyone inet_ntop es c buffer =
    let s = run inet_ntop es start in
    (
      recipients c (remember c s.clients),
      refl,
      λ d. (
        ground (
          arith,
          times-recipients c d (remember c s.clients),
          times-remember c d s.clients,
          times-run inet_ntop es d start,
        ),
        is_client_iff c d,
      ),
    )
