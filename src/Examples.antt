-- ===== src/Examples.antt =====
-- The theorems at concrete inputs, part by part.
mod Leases
mod Packets
mod Consoles
mod Networks
mod Bridges
mod Guests
mod Bmcs
