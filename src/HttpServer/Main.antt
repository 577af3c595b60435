-- ===== src/HttpServer/Main.antt =====
-- multithreading-http-server.c, `main` (lines 204 to 269).
use network_programming_lab.Prelude.{Option, Bytes, List, ℕ, Bool, [], ◌∷◌}
use network_programming_lab.Strcmp.{Sorter}
use network_programming_lab.Listing.{FileEntry}
use network_programming_lab.HttpServer.Entries.{Found}
use network_programming_lab.HttpServer.Answer.{handle_client, answer_bytes}
use network_programming_lab.Sockets.Start.{
  Call, socket, setsockopt, bind, listen, close, wsa_startup, wsa_cleanup, Started, started,
  attempt, unchecked,
}

abbrev port : ℕ
port = 8080

unfoldable pub set_up : (Call → Bool) → Started
unfolding attempt unchecked
set_up works = attempt works wsa_startup [] (
    attempt works socket (wsa_cleanup ∷ []) (
      unchecked setsockopt (
        attempt works (bind port) (close ∷ wsa_cleanup ∷ [])
          (attempt works (listen 10) (close ∷ wsa_cleanup ∷ []) started))))

-- A connection: `accept` fails, or a thread is started for a client, with what stands in memory, what
-- the client sends, and what is then in the directory.
pub data Arrival : Type 0 where
  fails : Arrival
  client : Bytes → Bytes → Option (List Found) → Arrival

-- What each client is sent; the threads share nothing.
unfoldable pub serve_all : Sorter FileEntry → List Arrival → List (Option Bytes)
serve_all q [] = []
serve_all q (fails ∷ arrivals) = serve_all q arrivals
serve_all q (client stale received found ∷ arrivals) =
    answer_bytes q found (handle_client stale received) ∷ serve_all q arrivals
