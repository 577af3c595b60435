-- ===== src/Sockets.antt =====
-- The programs of one file that talk over sockets: simple-tcp-server.cpp is Greeter,
-- simple-ssh-simulation.cpp is Shell, simple-udp-client-and-server.cpp is Echo, and
-- simple-netcat-client.cpp is Relay. Start is how each of them opens its socket.
pub mod Start
pub mod Greeter
pub mod Shell
pub mod Echo
pub mod Relay
pub mod Balance
