-- ===== src/Node.antt =====
-- lib/ff_core/node.h and node.cpp: the node, which wires radios, crypto, peers and timers together.
--
-- The objects behind NodeDeps are an interface over the state `W` that they share; a null pointer
-- is `none`. What a node keeps is `Node`, apart from its scheduler, which is threaded beside it
-- because the scheduler runs the node's timers. A timer's task is a number: `i` for the beacon of
-- radio `i`, and one each for the announce, the expiry and the radar. `D` is double.
pub mod Interfaces
pub mod State
pub mod Receive
pub mod Send
pub mod Radar
pub mod Timers
