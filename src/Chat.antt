-- ===== src/Chat.antt =====
-- The chat rooms: multithread-chatroom-server.cpp in Threads, tcl-chatroom-server.cpp in Processes
-- and multiple-client-udp-server.cpp in Datagrams.
pub mod Threads
pub mod Processes
pub mod Datagrams
