-- ===== src/Lib.antt =====
-- LadoFlow extends a desktop onto an Android tablet: the host encodes frames of a virtual display and
-- sends them over a byte stream, the tablet shows them and sends input back. This development models
-- the platform-independent Rust crates under crates/ and the desktop's host protocol, and proves the
-- theorems that are listed at the end.
--
-- The parts, and the files that model them:
--
--   crates/ladoflow-protocol/src: the wire protocol.
--     error.rs      Protocol/Error.antt: `ProtocolError`, and the identifiers of `MessageType`.
--     frame.rs      Protocol/Frame.antt: `FrameFlags`, `FrameHeader` (new, encode, decode), `Frame`
--                   (new, encode, encoded_len, decode_prefix). Protocol/Decoder.antt: `FrameDecoder`
--                   (new, with_buffer_limit, push, clear). Protocol/Message/Payload.antt:
--                   `Frame::from_payload` and `Frame::decode_payload` over any `WirePayload`.
--     message.rs    Protocol/Message.antt: `Hello` and `Capabilities`, their constructors and codecs.
--     control.rs    Protocol/Control.antt: `Ping`, `Pong` and `ErrorMessage`.
--     display.rs    Protocol/Display.antt: `DisplayConfig` and `VideoFrame`.
--     input.rs      Protocol/Input.antt: `InputEvent`; an i16 is its two's-complement word.
--     telemetry.rs  Protocol/Telemetry.antt: `Telemetry` and its `StageTimings`.
--                   Protocol/Payloads.antt: the nine payload families by the kind of their frames.
--   crates/ladoflow-core/src: the logical session.
--     negotiation.rs  Core/Negotiation.antt: `negotiate`.
--     session.rs      Core/Session.antt: `Session` and its seven mutating methods, `ReconnectPolicy`.
--     telemetry.rs    Core/Telemetry.antt: `LatencyAggregator` (new, record, snapshot).
--     quality.rs      Core/Quality.antt: `QualityPolicy` (new, recommend).
--   crates/ladoflow-media/src: the pacing of frames.
--     metadata.rs   Media/FrameRate.antt: `FrameRate` and the frame metadata.
--     scheduler.rs  Media/Pacer.antt: `FramePacer`. Media/Metrics.antt: `SchedulerMetrics`.
--                   Media/Scheduler.antt: `LatestFrameScheduler` (new, submit, poll, take_metrics).
--     synthetic.rs  Media/Synthetic.antt: `SyntheticFrameProducer` (new, advance_to_sequence, next).
--   crates/ladoflow-transport/src: the packets between two endpoints.
--     packet.rs, transport.rs  Transport/Packet.antt: `Packet`, `QueueLimits`, `SendError`, and the
--                   trait `PacketTransport` as a record of operations over a state.
--     loopback.rs   Transport/Queue.antt: `BoundedQueue`. Transport/Loopback.antt: the link of two
--                   `LoopbackEndpoint`s. Transport/Loopback/Spec.antt: its contract.
--     ldfl_stream.rs  Transport/Stream.antt: `LdflPacketDecoder`, `LdflPacketMux` over any
--                   `PacketTransport`, `ldfl_packet_sequence`.
--     pairing.rs    Transport/Pairing.antt: `PairingRecord` and its codec.
--                   Transport/Pairing/Handshake.antt: the four records that a host and a display
--                   exchange over a socket. Transport/Pairing/Token.antt: the text of a token.
--   apps/desktop/src-tauri/src: the desktop host.
--     host_protocol.rs  Desktop/Handshake.antt: `HostHandshake` (with_nonce, initial_packets, accept).
--                   Desktop/Handshake/Waiting.antt: `negotiate_host_transport`,
--                   `send_control_payload` and the loops under them.
--                   Desktop/Modes.antt: `select_display_config` and what it calls.
--
-- How they interact. A transport delivers chunks of bytes to `FrameDecoder::push`, which cuts them
-- into frames; `Frame::decode_payload` turns the first ones into a hello and an offer; `negotiate`
-- combines the two endpoints' into a `NegotiatedSession`, which `Session::establish` takes; the latency
-- window and the negotiated limits give a `QualityRecommendation`; and the frames that are captured go
-- through `LatestFrameScheduler`, which asks its `FramePacer` for slots. Packets of encoded frames pass
-- a transport on two lanes; at the far end the mux puts the lanes back into the order of the sequence
-- numbers. On the desktop, `HostHandshake::accept` takes the display's hello and offer out of such
-- packets, negotiates, opens a `Session` and selects the mode of the display. A tethered socket is
-- first authenticated by the pairing records.
--
-- How a model corresponds to its code. A method that mutates returns the new state beside its
-- result. `Result` is a data type of Base/Outcome.antt, and `?` is the bind of a do block. The
-- unsigned integers are natural numbers, with each check, saturation or conversion of the source
-- written out; a field is bounded by its type in the well-formedness records (IsHeader, IsHello,
-- IsOffer, IsRate and their like). A usize has 64 bits. A `Duration` is its number of nanoseconds,
-- at most u64::MAX seconds and 999999999 nanoseconds (Base/Time.antt). A `Vec<u8>` is a list of
-- numbers. A `String` is its UTF-8 bytes, and `String::from_utf8` is the table of well-formed
-- sequences of the Unicode standard (Base/Utf8.antt). `sort_unstable` on integers is insertion
-- sort. Methods that only read a field are the projections of the record. Error texts for display
-- are left out; where the source returns a text as its error, the model has a constructor. The
-- mutex of a loopback link is the order of the calls. A socket is what arrives, what was written
-- and how many calls were made; which calls fail, the MAC of the pairing (a package the source
-- calls) and the draws of the random source are parameters.
--
-- Bounds and fuel. The loop of `push` runs on fuel, and the callers give it the length of the
-- buffer: a round consumes at least the 24 bytes of a header. `drain` calls the mux on fuel, and a
-- number above that of the packets is enough. The loops of host_protocol.rs that wait run on fuel,
-- and a number above that of the first check that refuses is enough, as is the number of the checks
-- of an exchange that comes to its end; the answers of the checks and
-- what the other parties do to the transport between them are parameters. The inner loop of
-- `expose_grouped` has its number of bits as fuel, and takes five of them in a round; that of
-- `make_payload` has the number of bytes, and fills up to eight of them. Every other loop is
-- structural recursion. The u128 arithmetic of timestamps and means is written without a wrap; for
-- a u64 index, a u32 rate and a duration its products are below 2 ^ 128.
--
-- What is not modelled: the TCP and USB accessory transports of crates/ladoflow-transport, whose
-- threads move bytes between a socket or a USB endpoint and one end of the modelled link; the rest of
-- the desktop application under apps/, which is threads and channels around calls of these crates; and
-- the platform adapters (Windows capture and encoding, Android), which are mostly calls of
-- operating-system interfaces.
pub mod Base
pub mod Protocol
pub mod Core
pub mod Media
pub mod Transport
pub mod Desktop
