-- ===== src/Tftp/Main.antt =====
-- trivial-file-transfer-protocol.c, `main` (lines 333 to 368).
use network_programming_lab.Prelude.{ℕ, Bool, List, [], ◌∷◌, Bytes, codes, if◌then◌else◌}
use network_programming_lab.Strcmp.{texts_agree}

-- What `main` goes on to do: print how to use it and return 1, or start a transfer.
pub data Command : Type 0 where
  usage : Command
  get : Bytes → Bytes → Bytes → Command  -- server_ip, remote_file, local_file
  put : Bytes → Bytes → Bytes → Command  -- server_ip, local_file, remote_file

-- `argv[4]` if it is there, and else `argv[3]`.
abbrev optional : Bytes → List Bytes → Bytes
optional third [] = third
optional third (fourth ∷ _) = fourth

-- The arguments behind the program's name: `argc < 4` is fewer than three of these.
unfoldable pub main : List Bytes → Command
main (command ∷ server_ip ∷ third ∷ more) =
    if texts_agree command (codes "get")
    then get server_ip third (optional third more)
    else if texts_agree command (codes "put")
    then put server_ip third (optional third more)
    else usage
main _ = usage

-- The exit status, if `WSAStartup` works or not, by what the transfers return.
status : (Command → ℕ) → Command → ℕ
status result usage = 1
status result (get server_ip remote_file local_file) = result (get server_ip remote_file local_file)
status result (put server_ip local_file remote_file) = result (put server_ip local_file remote_file)

unfoldable pub exit_status : Bool → (Command → ℕ) → List Bytes → ℕ
unfolding status
exit_status starts result args = if starts then status result (main args) else 1
