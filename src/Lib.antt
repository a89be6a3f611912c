-- ===== src/Lib.antt =====
-- game-streamer-agent: the video path and the pairing of a game streaming agent and its client.
--
-- The agent captures and encodes frames. `chunk_video_frame` cuts an encoded frame into datagrams and
-- adds Reed-Solomon parity; the transport stamps each with a sequence number. The client parses the
-- datagrams and gives them to its `Reassembler`, which completes frames, recovers lost shards group
-- by group and releases frames in order. A client gets access by pairing: the owner arms a window with
-- a code and a scope, a connection proves that it knows the code, and its pin goes to the peer store.
--
-- Files, and the code that they model (paths from the repository's root):
--
-- - Base: names and lemmas that all parts share; Base/Xor has the laws of exclusive or.
-- - Wire: crates/protocol/src/datagram.rs with crates/core/src/media.rs and crates/core/src/error.rs.
--   Wire/Bytes has big-endian numbers and checked slices, Wire/FrameKind and Wire/DatagramType the
--   codes, Wire/Video and Wire/Audio the headers, Wire/Seq the sequence number and padding,
--   Wire/Time the stamps of crates/core/src/time.rs
--   and the frame ids of crates/core/src/id.rs.
-- - Fec: crates/protocol/src/fec.rs. Fec/Field is the arithmetic by tables, Fec/Layout `group_layout`,
--   Fec/Code `encode_parity`, `reconstruct_data` and `invert`. Fec/Matrix is about the elimination of
--   `invert` and the Cauchy matrices that it gets, Fec/Recovery about the bytes of a group that was
--   encoded, lost in part, and reconstructed.
-- - Chunker: `chunk_video_frame` of crates/protocol/src/datagram.rs.
-- - Reassembler: crates/client-core/src/reassembly.rs. Reassembler/Shards has `Pending`, `assemble_data`
--   and `reconstruct`; the parent has the state with `push`, `drain` and the pruning. Reassembler/Recovery puts the
--   chunker, a channel that loses, repeats and reorders datagrams, and the reassembler together.
-- - Pairing: crates/session/src/pairing.rs, crates/transport/src/peers.rs and the scopes
--   and grants of crates/protocol/src/grant.rs. Pairing/Window is about the window alone, Pairing/Trace about
--   connections that run side by side, Pairing/Grant about the signed bytes.
-- - Stats: the receive window, the presentation statistics and the percentiles of
--   crates/client-core/src/stats.rs.
-- - Keymap: the key tables of crates/input/src/keymap.rs.
-- - Session: the live connections of crates/session/src/state.rs and the reframer of
--   crates/session/src/audio_pipeline.rs, without what its loop does with a frame: the codec, and the
--   exit when the sender task is gone.
-- - Bwe: Bwe/Time has the instants and durations of crates/session/src/bwe/time.rs, Bwe/Rates the bit
--   rates of crates/session/src/bwe/bandwidth.rs. Bwe/Probe is the state of the probing controller of
--   crates/session/src/bwe/probe/control.rs, Bwe/Probe/Attempts its `maybe_*` functions,
--   Bwe/Probe/Inputs its setters, Bwe/Probe/Control `handle_timeout`, and Bwe/Probe/Trace its calls in
--   any order; Bwe/Probe/Tickets has the dispenser that its cluster numbers refine.
--   Bwe/Types has the records of crates/session/src/bwe/types.rs, Bwe/Estimator and Bwe/Estimator/Result
--   the estimator of crates/session/src/bwe/probe/estimator.rs, and Bwe/Arrival the groups of
--   crates/session/src/bwe/delay/arrival_group.rs. Bwe/Fixed has fixed-point numbers for the runs.
--
-- Conventions. Numbers are natural numbers; where the code has a machine width, the reduction is
-- written out, and the width is a hypothesis of the theorems that need it. A call that can fail
-- returns an `Outcome`: a value, an error, or a panic, for a slice or an index out of range and a
-- failed `expect`. Inside the erasure code and the recovery the index panics are not modelled:
-- there the loops run over the lengths, and the ranges are those of `group_layout`, which tile the
-- shards. Debug assertions and the overflow checks of a debug build are not modelled either:
-- counters wrap as in a release build. A hash map is an association list, and no operation depends
-- on the order of its iteration.
--
-- An `f64` is a type with the operations that the code uses, as an instance argument; no theorem
-- assumes a law of them. Instants of the standard library are nanoseconds and not bounded, unless a theorem
-- says so; a sum of signed durations that is too long for a `Duration` is a panic. The two
-- instants that stand for the past and for never are an argument, since the process sets them when it
-- starts. A data size of the probe estimator is a sum of packet sizes of 16 bits each and is not
-- bounded. Logging is left out.
--
-- Bounds. `fill` runs its 255 rounds, `layout_from` one round per group, `chunks_of` at most as
-- many rounds as there are bytes, of which each takes one or more, and `invert_from` one round per
-- column. `drain_frames` has as many rounds as there are samples in the buffer, of which each
-- round takes some. No result rests on fuel that could run out.
--
-- The instants of pairing, the code that is generated, whether the code exchange accepts a message
-- and whether the peer store can be written are inputs of the steps. Not modelled: transport and
-- cryptography, the control messages, which a serialization library encodes, the filters of the
-- bandwidth estimation, capture, codecs, input injection and the programs around them.
mod Base
pub mod Wire
pub mod Fec
pub mod Chunker
pub mod Reassembler
pub mod Pairing
pub mod Keymap
pub mod Stats
pub mod Bwe
pub mod Session
