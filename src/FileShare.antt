-- ===== src/FileShare.antt =====
-- file-sharing-server-client.cpp: a server that keeps the names and addresses of its clients, and
-- clients that send files to one another. Streams is `std::istringstream`, Registry the server and
-- the listing in the client, Transfer a file on its way, Client the two loops,
-- and Opening the sockets.
pub mod Streams
pub mod Registry
pub mod Transfer
pub mod Client
pub mod Opening
