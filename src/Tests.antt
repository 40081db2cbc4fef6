-- ===== src/Tests.antt =====
-- Runs of the models on small inputs, and the theorems at inputs that meet their hypotheses.
mod Ciphers
mod Bands
mod Blocks
mod Configs
mod Follows
mod Frames
mod Hashes
mod Hubs
mod Loops
mod Nodes
mod Packets
mod Peers
mod Receivers
mod Replays
mod Requests
mod Restores
mod Rings
mod Slots
mod Timers
mod Traffic
