-- ===== src/Tests/Talking.antt =====
-- The programs of one file with a short conversation each.
use network_programming_lab.Prelude.{
  refl, Bool, true, false, List, [], ◌∷◌, ◌++◌, map, ◌≡◌, none, some, All, codes,
}
use network_programming_lab.Sockets.Start.{Call, bind, Balanced, WsaBalanced}
use network_programming_lab.Chat.Datagrams as Datagrams
use network_programming_lab.HttpServer.Main as HttpMain
use network_programming_lab.Sockets.Greeter as Greeter
use network_programming_lab.Sockets.Shell as Shell
use network_programming_lab.Sockets.Shell.{
  without_newline, Turn, command_text, connection, welcome_msg, fork_bomb,
}
use network_programming_lab.Sockets.Shell.Guard.{
  IsGuarded, handled, answer, farewell, harmless, connection-IsGuarded,
}
use network_programming_lab.Sockets.Echo as Echo
use network_programming_lab.Sockets.Echo.{server_set_up, client_set_up}
use network_programming_lab.Console.{hex_text, output, joined, getline, behind_getline}
use network_programming_lab.Url.{hex_digit}
use network_programming_lab.Scanf.{c_string}
use network_programming_lab.Sockets.Relay as Relay
use network_programming_lab.Sockets.Relay.{Input, ready, connected, run}
use network_programming_lab.Sockets.Relay.Writing.{Follows, typed, heard}
use network_programming_lab.Sockets.Relay.Laws.{run-Follows}
use network_programming_lab.FileShare.Opening.{broadcast_calls}
use network_programming_lab.Sockets.Balance.{set_up-Balanced}

-- A computer on which every call works but `bind`.
abbrev port_is_taken : Call → Bool
port_is_taken (bind port) = false
port_is_taken call = true

set_up-Balanced_example :
    Balanced port_is_taken (Greeter.set_up port_is_taken)
    × Balanced port_is_taken (Shell.set_up port_is_taken)
    × Balanced port_is_taken (server_set_up port_is_taken)
    × Balanced port_is_taken (client_set_up port_is_taken)
    × Balanced port_is_taken (Relay.set_up 5000 port_is_taken)
    × Balanced port_is_taken (Datagrams.set_up port_is_taken)
    × Balanced port_is_taken (HttpMain.set_up port_is_taken)
    × WsaBalanced port_is_taken (HttpMain.set_up port_is_taken)
    × Balanced port_is_taken (broadcast_calls port_is_taken)
set_up-Balanced_example = set_up-Balanced port_is_taken 5000

abbrev turns : List Turn
turns =
    record { received = codes "ls\n"; printed = some (codes "notes\n") }
    ∷ record { received = codes "rm -rf /\n"; printed = none }
    ∷ record { received = codes "exit\n"; printed = none }
    ∷ []

connection-IsGuarded_example :
    All IsGuarded (connection turns).executed
    × (connection turns).executed
      ≡ harmless (map (λ turn. command_text turn.received) (handled turns))
    × (connection turns).sent ≡ welcome_msg ∷ (map answer (handled turns) ++ farewell turns)
connection-IsGuarded_example = connection-IsGuarded turns

abbrev rounds : List Relay.Event
rounds =
    ready (some (record { bytes = codes "hi\n"; answers = some 2 ∷ some 1 ∷ [] })) none
    ∷ ready (some (record { bytes = []; answers = [] }))
        (some (record { bytes = codes "yes"; answers = some 3 ∷ [] }))
    ∷ []

run-Follows_example :
    Follows (typed rounds) (run rounds connected).to_socket (run rounds connected).runs []
    × Follows (heard rounds) (run rounds connected).to_output (run rounds connected).runs []
run-Follows_example = run-Follows rounds

leaves : command_text (codes "exit\n") ≡ codes "exit"
unfolding command_text without_newline c_string
leaves = refl

-- A carriage return stays.
stays : command_text (codes "exit\r\n") ≡ codes "exit\r"
unfolding command_text without_newline c_string
stays = refl

-- The number 1, as a processor that puts the lowest byte first has it in memory.
one_in_hex : hex_text (0 ∷ 0 ∷ 128 ∷ 63 ∷ []) ≡ codes "3F 80 00 00 "
unfolding hex_text hex_digit
one_in_hex = refl

joins_lines : output (codes "ab\ncd\n\nef\n") ≡ codes "abcd\n"
unfolding output joined getline behind_getline
joins_lines = refl

echoes :
    Echo.answer (some (record { s_addr = 16777343; sin_port = 6000 }, codes "hi\n"))
    ≡ some (record { s_addr = 16777343; sin_port = 6000 }, codes "hi\n")
unfolding Echo.answer
echoes = refl
