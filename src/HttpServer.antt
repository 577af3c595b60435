-- ===== src/HttpServer.antt =====
-- multithreading-http-server.c: a server that answers every request with a listing of its
-- directory, or with an icon. The buffers are in `Page`, the entries in `Entries`, and the answers
-- in `Answer`.
pub mod Page
pub mod Entries
pub mod Answer
pub mod Main
