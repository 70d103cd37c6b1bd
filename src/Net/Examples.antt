-- ===== src/Net/Examples.antt =====
-- The theorems about bipolar/net at concrete inputs.
mod Polls
mod Host
mod Descriptors
mod Sockets
