-- ===== src/Chat/Threads/Invariant.antt =====
-- The array and the threads agree in every state that the process can reach.
use network_programming_lab.Prelude.{
  ℕ, zero, suc, ◌+◌, ◌<◌, List, [], ◌∷◌, ◌++◌, ◌≡◌, refl, ap, sym, subst, ◌∙◌, arith, none, some,
  Bytes, length-append, length-replicate, get_elem?, set, ltb, ltb→lt, if◌then◌else◌, Bool-cases,
  inl, inr,
}
use network_programming_lab.Chat.Threads.{
  array_size, join, leave, serving, hung_up, closed, Handler, Server, start, accept_client, receive,
  close_socket, is_closed, IsFresh, Step, accepts, receives, closes, Reach, here, next,
}
use network_programming_lab.Chat.Threads.Slots.{
  Indexed, IsValid, take-set_end, take-set, length-set, map-slot-append, length-set_phase,
  Indexed-set_phase, positive-set_phase, Distinct-set_phase, slots-set_phase, slots-closed,
  Indexed-append, positive-append, Distinct-append,
}

-- The process with one more client.
module _ (d : ℕ) (s : Server) where
  abbrev newcomer : Handler
  newcomer = record { client_socket = d; client_index = s.room.g_count; phase = serving }

  abbrev added : Server
  added = record s {
    room = record {
      g_sockets = set s.room.g_sockets s.room.g_count d;
      g_count = s.room.g_count + 1;
    };
    handlers = s.handlers ++ newcomer ∷ [];
  }

  added-IsValid :
      0 < d → IsFresh d s.handlers → s.room.g_count < array_size → IsValid s → IsValid added
  added-IsValid pos fresh room_left v =
      let one_more : s.room.g_count + 1 ≡ suc s.room.g_count = omega arith in
      record {
        size = length-set s.room.g_sockets s.room.g_count d ∙ v.size;
        counted = omega (arith, v.counted, length-append s.handlers (newcomer ∷ []));
        within = omega (arith, room_left);
        slots =
            rw
              (
                one_more,
                take-set_end s.room.g_count s.room.g_sockets d (omega (arith, v.size, room_left)),
                v.slots,
              )
              (sym (map-slot-append s.handlers newcomer));
        indexed = Indexed-append 0 s.handlers newcomer (omega (arith, v.counted)) v.indexed;
        positive = positive-append s.handlers newcomer pos v.positive;
        distinct = Distinct-append s.handlers newcomer fresh v.distinct;
      }

  pub accept_client-eq :
      accept_client d s ≡ (if ltb s.room.g_count array_size then some added else none)
  unfolding accept_client join
  accept_client-eq = ground arith

accept_client-IsValid :
    (d : ℕ) (s t : Server)
    → 0 < d
    → IsFresh d s.handlers
    → accept_client d s ≡ some t
    → IsValid s
    → IsValid t
accept_client-IsValid d s t pos fresh e v = elim (Bool-cases (ltb s.room.g_count array_size)) [
  | inl room_left ↦
      let same : added d s ≡ t = ground (arith, accept_client-eq d s, e, room_left) in
      subst IsValid same (added-IsValid d s pos fresh (ltb→lt _ _ room_left) v)
  | inr full ↦ absurd (ground (arith, accept_client-eq d s, e, full))
]

Indexed-get_elem? :
    (n i : ℕ) (hs : List Handler) (h : Handler)
    → Indexed n hs
    → get_elem? hs i ≡ some h
    → h.client_index ≡ n + i
Indexed-get_elem? n i [] h a e = absurd (ground arith)
Indexed-get_elem? n zero (k ∷ hs) h a e =
    let same : k ≡ h = cc in omega (arith, a.0, ap (λ (t : Handler). t.client_index) same)
Indexed-get_elem? n (suc i) (k ∷ hs) h a e = omega (arith, Indexed-get_elem? (n + 1) i hs h a.1 e)

receive-IsValid :
    (i : ℕ) (h : Handler) (message : Bytes) (s : Server)
    → get_elem? s.handlers i ≡ some h
    → h.phase ≡ serving
    → IsValid s
    → IsValid (receive i h message s)
unfolding receive leave
receive-IsValid i h [] s e p v =
    let own : h.client_index ≡ i = omega (arith, Indexed-get_elem? 0 i s.handlers h v.indexed e) in
    record {
      size = length-set s.room.g_sockets h.client_index 0 ∙ v.size;
      counted = v.counted ∙ sym (length-set_phase hung_up i s.handlers);
      within = v.within;
      slots =
          rw (take-set s.room.g_count h.client_index s.room.g_sockets 0, v.slots, own)
            (sym (slots-set_phase i s.handlers));
      indexed = Indexed-set_phase hung_up i 0 s.handlers v.indexed;
      positive = positive-set_phase hung_up i s.handlers v.positive;
      distinct = Distinct-set_phase hung_up i s.handlers h e (ap is_closed p) v.distinct;
    }
receive-IsValid i h (c ∷ cs) s e p v = record {
  size = v.size;
  counted = v.counted;
  within = v.within;
  slots = v.slots;
  indexed = v.indexed;
  positive = v.positive;
  distinct = v.distinct;
}

close_socket-IsValid :
    (i : ℕ) (h : Handler) (s : Server)
    → get_elem? s.handlers i ≡ some h
    → h.phase ≡ hung_up
    → IsValid s
    → IsValid (close_socket i s)
unfolding close_socket
close_socket-IsValid i h s e p v = record {
  size = v.size;
  counted = v.counted ∙ sym (length-set_phase closed i s.handlers);
  within = v.within;
  slots = v.slots ∙ sym (slots-closed i s.handlers h e p);
  indexed = Indexed-set_phase closed i 0 s.handlers v.indexed;
  positive = positive-set_phase closed i s.handlers v.positive;
  distinct = Distinct-set_phase closed i s.handlers h e (ap is_closed p) v.distinct;
}

pub Step-IsValid : {s t : Server} → Step s t → IsValid s → IsValid t
Step-IsValid {s} {t} (accepts d pos fresh e) v = accept_client-IsValid d s t pos fresh e v
Step-IsValid {s} {t} (receives i h message e p same) v =
    subst IsValid (sym same) (receive-IsValid i h message s e p v)
Step-IsValid {s} {t} (closes i h e p same) v =
    subst IsValid (sym same) (close_socket-IsValid i h s e p v)

start-IsValid : IsValid start
start-IsValid = record {
  size = length-replicate {A = ℕ} array_size 0;
  counted = refl;
  within = omega arith;
  slots = refl;
  indexed = tt;
  positive = tt;
  distinct = tt;
}

pub Reach-IsValid : {s : Server} → Reach s → IsValid s
Reach-IsValid here = start-IsValid
Reach-IsValid (next r st) = Step-IsValid st (Reach-IsValid r)
