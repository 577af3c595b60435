-- ===== src/Tests.antt =====
-- Tests of the definitions at concrete inputs, and each theorem at an input that meets its
-- hypotheses.
mod Download
mod Upload
mod UrlText
mod Serving
mod Browsing
mod Files
mod Sharing
mod Chatting
mod Registering
mod Talking
mod Sequence
mod Together
mod Asking
