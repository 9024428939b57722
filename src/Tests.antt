-- ===== src/Tests.antt =====
-- Runs of the modelled code on concrete inputs, and the theorems applied at inputs that meet
-- their conditions.
mod Queue
mod Packing
mod Decoding
mod Forwarding
mod Formats
mod Tailing
mod Monitor
mod Ltsv
mod Following
mod Receiving
mod Lifecycle
mod Commands
mod Delivery
