-- ===== src/Follow.antt =====
-- lib/ff_core/follow.h and follow.cpp: steering the flight controller into a slot by another node.
--
-- Follow/Config is the configuration with its rules, Follow/Offset the slot, Follow/Lock the choice
-- of the leader, Follow/State what the controller keeps, Follow/Target the numbers of the waypoint
-- and Follow/Service the control cycle. The other children hold proofs.
--
-- The flight controller is what it answers during a cycle (its adapter reads from a cache) and the
-- list of commands that it is sent (which are buffered). Doubles and their functions are interfaces.
pub mod Config
pub mod Gvars
pub mod Lock
pub mod Offset
pub mod Service
pub mod State
pub mod Status
pub mod Target
pub mod Conditions
