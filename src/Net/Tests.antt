-- ===== src/Net/Tests.antt =====
-- Runs of the network stack and instances of its theorems.
mod Machines
mod Protocols
mod Transport
