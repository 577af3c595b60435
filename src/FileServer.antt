-- ===== src/FileServer.antt =====
-- np20.c: a file server that lists directories, sends files and takes uploads.
pub mod Text
pub mod Output
pub mod Reader
pub mod Request
pub mod Upload
pub mod Client
pub mod Main
