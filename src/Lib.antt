-- ===== src/Lib.antt =====
-- FormationFlight: the portable core under lib/ff_core, which every node of the formation runs.
--
-- A node is an aircraft with one or more radios. It broadcasts small packets with its position and
-- its name, keeps a table of the peers that it hears, and passes them on to its flight controller.
-- The files below follow the parts of lib/ff_core; child modules hold the proofs and are named for
-- what they prove.
--
-- Wire.antt is wire_format.h, the little-endian writers and readers.
-- Protocol.antt is protocol.h and protocol.cpp: the two packets, their encoders and decoders. It is
-- written with the writers and readers of Wire. Protocol/Packet holds the records.
-- PeerTable.antt is peer_table.h and peer_table.cpp: the table of peers, its updates from decoded
-- packets, eviction and expiry.
-- Crypto/Aes.antt is aes.h and aes.cpp, AES-128 with its key expansion.
-- Crypto/Sha.antt is sha256.h and sha256.cpp, with deriveGroupKey of crypto.cpp.
-- Crypto/Ccm.antt is ccm.h and ccm.cpp, AES-CCM. The block cipher is a parameter; the theorems that
-- need it ask that it maps a block of 16 bytes to another. The one that is flown is Crypto/Aes.
-- Crypto/Replay.antt is the replay table of crypto.cpp (slotFor, acceptCounter and the end of
-- decrypt), and Crypto/Frame.antt the rest of CcmCrypto: frames are made from packets and opened
-- again with Ccm, and a counter that Replay refuses stops the frame.
-- Scheduler.antt is scheduler.h and scheduler.cpp, the cooperative timers. Callbacks are a
-- parameter, which may change the scheduler and the rest of the program.
-- Msp.antt is msp_parser.h, msp_parser.cpp and msp_crc.h: MSP frames out of the serial bytes of the
-- flight controller.
-- MspFc.antt is msp_fc.h and msp_fc.cpp, what is said to the flight controller: requests and their
-- payloads; MspFc/Replies has the decoders of its replies and MspFc/Modes the active flight modes.
-- MspRadar.antt is msp_radar.h and msp_radar.cpp, a peer's position as such a message.
-- RadioHub.antt is radio_hub.h and radio_hub.cpp, the drivers behind one radio set of a node; the loop
-- that empties a driver's ring has a number of rounds, which is enough if it is more than the frames
-- that are pending.
-- Ubx.antt is ubx.h and ubx.cpp, the frames of a u-blox receiver, and Ubx/Messages what they say.
-- SpscRing.antt is ring_buffer.h, the ring between an interrupt and the main loop: push and pop as
-- whole functions, and in SpscRing/Steps as single accesses of shared memory in any interleaving.
-- These are taken to be sequentially consistent.
-- TxSlot.antt is tx_slot.h, the frame that a driver holds back while its radio is busy.
-- FrameLog.antt is frame_log.h, the ring of the last frames sent and received, and RateControl.antt
-- is rate_control.h and rate_control.cpp, the pace of the beacons.
-- LogRing.antt is log.h and log.cpp, the ring of log lines, whose text is formatted by the C library.
-- Airtime.antt is airtime.h and airtime.cpp, the time a LoRa frame is on the air.
-- SimTraffic.antt is sim_traffic.h and sim_traffic.cpp, the motion of simulated peers.
-- LoopStats.antt is loop_stats.h and loop_stats.cpp, the timing of the main loop.
-- Node.antt is node.h and node.cpp, which join these parts: Node/Interfaces has what a node is built
-- from, Node/State what it keeps, Node/Receive is onReceive, Node/Send the beacons and announces,
-- Node/Radar the output of peers and Node/Timers the timers and begin. The objects that a node is
-- given (radios, location, cipher, sinks) are an interface over a state that they share.
-- Follow.antt is follow.h and follow.cpp, the controller that steers into a slot by another node:
-- Follow/Config, Follow/Offset, Follow/Lock, Follow/Target and Follow/Service have its configuration,
-- its slot, its leader, its waypoint and its cycle, Follow/Conditions what a cycle reports and
-- Follow/Status the snapshot for the status page; it reads the table of PeerTable. Geo.antt is geo.h
-- and geo.cpp, and Maths.antt what both take of <cmath>.
-- Config.antt is config.h and config.cpp, the settings with their validation; Config/Merge reads a JSON
-- document on top of them, Config/Print writes one, and Config/Seed is the first boot of an image. The
-- JSON library is an interface (Config/Json), and Config/Document has what is taken to hold of it when a
-- document that was written is read. An error message is a constructor that is named for the setting it
-- is about.
-- HwLayout.antt is hw_layout.h and hw_layout.cpp, what a board is wired to and the transmit power it
-- can put out; HwLayout/Parse reads it from JSON. LoraBand.antt is lora_band.h and lora_band.cpp, the
-- bands and which of them is used.
-- Prelude.antt has what they share: the Boolean tests, lists by native numbers, machine words and
-- the laws of their digits.
--
-- An unsigned machine word is a native number and keeps its wrap-around (u8, u16, u32, add32,
-- sub32); a signed one is its two's-complement bit pattern. A buffer with its length is a list, a
-- cursor is the rest of that list, and what a function stores in place is its result. Pointers into
-- the tables are indices, and nullptr is none.
--
-- Loops are structural recursion over the array or the bytes they walk. The loops over bytes of
-- machine words, the rounds of the checksum and of the hash, and the words and rounds of AES have
-- their constant number of rounds as an argument; the loop of ctrCrypt has the number of bytes left
-- as its bound on rounds, and takes at least one byte in each; the padding loop of the hash has 64
-- rounds, one for each length that a buffer can have.
--
-- A double is an element of a type with an interface of operations; a theorem that needs laws of
-- them has them as named hypotheses.
--
-- Not modelled: the GNSS link counters, which are an interface without operations of their own; the
-- drivers and the web server under src/hal, whose code is calls of vendor libraries around lib/ff_core;
-- main.cpp, which wires them up; and the firmware of before the rewrite under src/lib, which the build
-- leaves out (build_src_filter in platformio.ini).
pub mod Prelude
pub mod Airtime
pub mod LogRing
pub mod Wire
pub mod Protocol
pub mod PeerTable
pub mod Config
pub mod Crypto
pub mod FrameLog
pub mod Follow
pub mod Geo
pub mod HwLayout
pub mod LoopStats
pub mod LoraBand
pub mod Maths
pub mod Msp
pub mod MspFc
pub mod MspRadar
pub mod Node
pub mod RadioHub
pub mod RateControl
pub mod Scheduler
pub mod SimTraffic
pub mod SpscRing
pub mod TxSlot
pub mod Tests
pub mod Ubx
