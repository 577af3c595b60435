-- ===== src/Tftp.antt =====
-- trivial-file-transfer-protocol.c: a TFTP client. The packets are in `Wire`, what the socket
-- gives and takes in `Link`, the download in `Get`, the upload in `Put`, the two of them joined in
-- `Transfer`, and the command line in `Main`.
pub mod Wire
pub mod Link
pub mod Get
pub mod Put
pub mod Transfer
pub mod Main
