-- ===== src/Chat/Threads/Delivery.antt =====
-- Who is sent a message.
use network_programming_lab.Prelude.{
  ℕ, zero, suc, ◌<◌, Bool, true, false, List, [], ◌∷◌, ◌++◌, map, ◌≡◌, ◌≢◌, ◌↔◌, refl, ap, sym, ◌∙◌,
  arith, none, some, All, All-get_elem?, Bytes, length, get_elem?, if◌then◌else◌,
}
use network_programming_lab.Chat.Threads.{
  array_size, recipients, broadcast, Phase, serving, hung_up, closed, Handler, Server,
  accept_client, receive, to_all, is_closed, Reach,
}
use network_programming_lab.Chat.Threads.Slots.{slot, slot_of, Apart, Distinct}
use network_programming_lab.Chat.Threads.Invariant.{accept_client-eq, Reach-IsValid}

abbrev pub is_serving : Phase → Bool
is_serving serving = true
is_serving _ = false

-- The sockets of the clients that have not gone.
abbrev pub members : List Handler → List ℕ
members [] = []
members (h ∷ hs) = if is_serving h.phase then h.client_socket ∷ members hs else members hs

-- The same without the one with number `i`.
abbrev pub others : ℕ → List Handler → List ℕ
others i [] = []
others zero (h ∷ hs) = members hs
others (suc i) (h ∷ hs) = if is_serving h.phase then h.client_socket ∷ others i hs else others i hs

recipients-slot :
    (socket : ℕ) (h : Handler) (slots : List ℕ)
    → 0 < h.client_socket
    → (is_closed h.phase ≡ false → h.client_socket ≢ socket)
    → recipients socket (slot h ∷ slots) ≡ (
        if is_serving h.phase
        then h.client_socket ∷ recipients socket slots
        else recipients socket slots)
unfolding recipients
recipients-slot socket h slots pos apart = by_phase h.phase refl
  where
    by_phase :
        (p : Phase)
        → p ≡ h.phase
        → recipients socket (slot_of p h.client_socket ∷ slots) ≡ (
            if is_serving p
            then h.client_socket ∷ recipients socket slots
            else recipients socket slots)
    by_phase serving e = ground (arith, pos, apart (ap is_closed (sym e)))
    by_phase hung_up e = refl
    by_phase closed e = refl

recipients-members :
    (socket : ℕ) (hs : List Handler)
    → All (λ h. 0 < h.client_socket) hs
    → All (λ h. is_closed h.phase ≡ false → h.client_socket ≢ socket) hs
    → recipients socket (map slot hs) ≡ members hs
recipients-members socket [] pos apart = unfold recipients in refl
recipients-members socket (h ∷ hs) pos apart = rw (
  recipients-slot socket h (map slot hs) pos.0 apart.0,
  recipients-members socket hs pos.1 apart.1,
)

recipients_self :
    (socket : ℕ) (slots : List ℕ) → recipients socket (socket ∷ slots) ≡ recipients socket slots
unfolding recipients
recipients_self socket slots = ground arith

Apart-is_closed :
    (k : Handler) (socket : ℕ) (hs : List Handler)
    → is_closed k.phase ≡ false
    → k.client_socket ≡ socket
    → All (Apart k) hs
    → All (λ h. is_closed h.phase ≡ false → h.client_socket ≢ socket) hs
Apart-is_closed k socket [] o e a = tt
Apart-is_closed k socket (h ∷ hs) o e a =
    (λ now same. a.0 o now (same ∙ sym e), Apart-is_closed k socket hs o e a.1)

recipients-others :
    (i : ℕ) (hs : List Handler) (h : Handler)
    → get_elem? hs i ≡ some h
    → h.phase ≡ serving
    → All (λ k. 0 < k.client_socket) hs
    → Distinct hs
    → recipients h.client_socket (map slot hs) ≡ others i hs
recipients-others i [] h e p pos d = absurd (ground arith)
recipients-others zero (k ∷ hs) h e p pos d =
    let same : k ≡ h = cc in
    let now : k.phase ≡ serving = ap (λ (t : Handler). t.phase) same ∙ p in
    let own : k.client_socket ≡ h.client_socket = ap (λ (t : Handler). t.client_socket) same in
    ap (λ x. recipients h.client_socket (x ∷ map slot hs))
      (ap (λ t. slot_of t k.client_socket) now ∙ own)
    ∙ recipients_self h.client_socket (map slot hs)
    ∙ recipients-members h.client_socket hs pos.1
        (Apart-is_closed k h.client_socket hs (ap is_closed now) own d.0)
recipients-others (suc i) (k ∷ hs) h e p pos d =
    let apart = All-get_elem? (Apart k) hs i h d.0 e in
    rw (
      recipients-slot h.client_socket k (map slot hs) pos.0
          (λ o same. apart o (ap is_closed p) (sym same)),
      recipients-others i hs h e p pos.1 d.1,
    )

-- In every state that the server with threads reaches, a thread in its loop that receives a
-- message with at least one byte hands it to `send` for exactly the sockets of the other threads
-- that are in their loops, once each and in the order in which they came, and changes nothing
-- else.
pub broadcast-others :
    {s : Server} (i : ℕ) (h : Handler) (c : ℕ) (cs : Bytes)
    → Reach s
    → get_elem? s.handlers i ≡ some h
    → h.phase ≡ serving
    → receive i h (c ∷ cs) s ≡ record s { sent = s.sent ++ to_all (others i s.handlers) (c ∷ cs) }
unfolding receive broadcast
broadcast-others {s} i h c cs r e p =
    let v = Reach-IsValid r in
    rw (v.slots, recipients-others i s.handlers h e p v.positive v.distinct) refl

-- In every state that the server with threads reaches, accepting one more client writes past the
-- end of the array exactly if 1024 clients have been accepted before, however many of them have
-- left.
pub accept_client-none_iff :
    {s : Server} (d : ℕ) → Reach s → (accept_client d s ≡ none) ↔ (length s.handlers ≡ array_size)
accept_client-none_iff {s} d r =
    let v = Reach-IsValid r in ground (arith, accept_client-eq d s, v.counted, v.within)
