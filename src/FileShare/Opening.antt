-- ===== src/FileShare/Opening.antt =====
-- file-sharing-server-client.cpp: the sockets of `broadcast_message` (lines 26 to 41) and of
-- `run_server` (lines 43 to 58).
use network_programming_lab.Prelude.{ℕ, Bool, [], ◌∷◌, Option, none, some, Bytes, if◌then◌else◌}
use network_programming_lab.Sockets.Start.{
  Call, socket, setsockopt, inet_pton, bind, close, Started, started, finished, attempt, unchecked,
}
use network_programming_lab.FileShare.Transfer.{reg_port, list_port}

-- Only the socket is looked at; `sendto` stands in front of the last call.
unfoldable pub broadcast_calls : (Call → Bool) → Started
unfolding attempt unchecked
broadcast_calls works =
    attempt works socket [] (unchecked setsockopt (unchecked inet_pton (finished (close ∷ []))))

-- What is handed to `sendto`, and the port it goes to.
unfoldable pub broadcast_message : (Call → Bool) → Bytes → ℕ → Option (Bytes × ℕ)
broadcast_message works message port = if works socket then some (message, port) else none

-- No answer is looked at.
unfoldable pub server_calls : Started
unfolding unchecked
server_calls =
    unchecked socket
      (unchecked socket (unchecked (bind reg_port) (unchecked (bind list_port) started)))
