-- ===== src/Lib.antt =====
-- ptpsim: the protocol core of a camera simulator that speaks PTP (ISO 15740) over IP, over USB and
-- over a vendor's compressed channel.
--
-- The program's parts, and how they interact. crates/ptp-core turns bytes into packets and datasets
-- and back; crates/protocol-primitives adds the framings of the vendors, the chunk transfer of
-- settings files and small codecs; crates/camera-config holds the manifests and the lifecycle
-- contract of a connection; crates/camera-sim is the simulator that answers a host with all of these
-- and injects faults on request. Everything that crosses the wire passes the reader and the writer of
-- ptp-core, so the files here stand on one another in that order.
--
-- Prelude: shared names, Boolean tests on native numbers, lists measured by native numbers, and
--   `Result` with the `?` of Rust as bind.
-- Wire: crates/ptp-core/src/datatype.rs and error.rs. `Reader` is a record of the buffer and the
--   position, a decoder maps a reader to an error or a value and the reader behind it, an encoder maps
--   a writer to an error or the writer with more bytes. Wire.Codes says which bytes a decoder reads as
--   which value wherever they stand, Wire.Local that it does not look further, Wire.Sound that an
--   error of a short input names a position within it; Wire.Complete draws the conclusions for inputs
--   that must be consumed whole. Strings are lists of Unicode scalar values; the standard library's
--   UTF-16 conversions are written out in Wire.Utf16.
-- Packet: crates/ptp-core/src/container.rs, framing.rs and the packet types of codes.rs. `decode_body`
--   and `encode_body` of a packet X are `decode_x` and `encode_x`; `PtpCodec::encode`, which appends
--   to a vector, is `encode_onto`.
-- Dataset: crates/ptp-core/src/dataset.rs. `X::decode` and `X::encode` are `decode_x` and `encode_x`.
-- Frame: crates/protocol-primitives/src/usb_ptp.rs (Frame.Usb) and fuji_framing.rs (Frame.Fuji).
-- Chunk: crates/protocol-primitives/src/chunk_frame.rs. The `FnOnce` that writes the header is an
--   argument, as in the source.
-- Codec: crates/protocol-primitives/src/value_codec.rs and liveview.rs.
-- Init: crates/protocol-primitives/src/fuji_init.rs, and in Init.Legacy legacy_app_init.rs. The name of
--   each request is a field of UTF-16 units, which Init.NameField reads and writes.
-- Identity: crates/protocol-primitives/src/client_identity.rs.
-- Link: crates/camera-sim/src/link.rs. The atomics are sequentially consistent, so what any threads do
--   is a list of calls.
-- Fault: crates/camera-sim/src/fault.rs. `&mut self` methods return the new registry.
-- Lifecycle: crates/camera-config/src/lifecycle.rs.
-- Manifest: crates/camera-config/src/model.rs, query.rs and version.rs. HexCode reads codes and bytes;
--   Property has the fields that the simulator reads; Version orders the versions of a firmware.
-- State: crates/camera-sim/src/state.rs. `&mut self` methods return the new state; State.Calls runs any
--   methods in any order, and State.Seeds is `from_manifest` and `build_prop_desc`.
-- Engine: crates/camera-sim/src/engine.rs. Receive is `CameraInitiatedQueue` with `complete_stream`,
--   Transfer is `TransferQueue` with the shutter's sequence, Gates the sequence gates, Mutation the
--   responder's mutations, Descriptors the refusals and the auxiliary descriptors. Each part has a record
--   of the fields of `Engine` that it touches, and takes of the manifest what it reads.
-- Tests: concrete runs.
--
-- Bounds. `usize` and `u64` have 64 bits. Casts that drop bits are written as a remainder
-- (`% 2 ^ 32`), checked and saturating additions as in the source. Every loop of the source runs over
-- a list or a counter and is structural recursion here; the `while` that reads
-- a packet's parameters takes the number of words left, `remaining / 4`, as its fuel, which each round
-- uses up by one, as the loop's condition does.
--
-- `BTreeMap` and `BTreeSet` are association lists and lists without their order, which nothing here
-- reads. A panic of `expect`, or of the `debug_assert_eq!` on a mutation that drifted, is `none`; the
-- other debug assertions are left out, as in a release build.
-- The usize counters of the queues (heads, indices, completed objects) are bounded by the length of a
-- list in memory and do not wrap.
--
-- Not modelled: the engine's dispatch of operations, serde and JSON forms, formatted messages (each has
-- a constructor in place of its text), memory reservation, the manifests and their generation, the BLE responder, sockets and threads of
-- the simulator, and the foreign-function interface.
pub mod Prelude
pub mod Wire
pub mod Packet
pub mod Frame
pub mod Dataset
pub mod Chunk
pub mod Fault
pub mod Lifecycle
pub mod Codec
pub mod Init
pub mod Manifest
pub mod State
pub mod Engine
pub mod Link
pub mod Identity
pub mod Tests
