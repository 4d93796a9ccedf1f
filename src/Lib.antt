-- ===== src/Lib.antt =====
-- srs_simple: an RTMP live streaming server. The RTMP path reads AMF0 values and chunks out of byte
-- buffers and relays messages from one publisher to its players.
--
-- The files of this library follow the directories of the sources:
--
-- Base: shared names, lists by native numbers, signed integers, and Outcome: a value, an error code
-- (src/core/srs_kernel_error.hpp), a failed srs_assert, an access outside the memory, or a loop out
-- of fuel.
--
-- Kernel/Buffer: SrsBuffer of src/kernel/srs_kernel_buffer.cpp, a function for each operation, of
-- the same name. Cursor sees a buffer as the bytes before and behind its cursor; Writes, Reads and
-- Safe hold the rules by which a sequence of operations is checked.
--
-- Kernel/Codec and Kernel/Flv: the tests on a message's payload and type, of
-- src/kernel/srs_kernel_codec.cpp and src/kernel/srs_kernel_flv.cpp.
--
-- App/Source: src/app/srs_app_source.cpp. Jitter, Queue, Consumer (with SrsMetaCache), Gop and Live
-- hold its classes, each with its theorems in child modules. LiveSource hands every message of the
-- publisher to its consumers, and each consumer corrects its time and puts it into its queue.
-- Live/Reachable runs its operations in any order.
--
-- Protocol/Amf0: src/protocol/srs_protocol_amf0.cpp. Amf0 has the values, the property table and
-- total_size; Amf0/Codec has the writers and the readers.
--
-- Protocol/Chunk: the chunk stream of src/protocol/srs_protocol_rtmp_stack.cpp. Chunk has the
-- headers and Chunk/Message the payload, the receive loop and the sender; Kernel/Flv has the chunk
-- headers that are written. The bytes that the peer sends are one buffer, which Protocol/Stream
-- shows SrsFastStream to implement.
--
-- Protocol/Control: the control packets of src/protocol/srs_protocol_rtmp_stack.cpp, the
-- acknowledgement window and what received control packets change. RoundTrip reads the packets
-- back, Effect follows a packet through the chunks to the peer, Receive has on_recv_message of a
-- chunk size, Delivery has recv_message as a whole, and Settings what a packet sets at its
-- receiver.
--
-- Protocol/Command: the command and data packets of src/protocol/srs_protocol_rtmp_stack.cpp, over
-- Protocol/Amf0. Write has encode_packet, Wire and Encode the payloads that it makes, Decode and
-- Message what do_decode_message reads of them; Ends, Read and Optional read each packet back, and
-- RoundTrip and Calls follow packets between two peers.
--
-- Protocol/Stream: SrsFastStream of src/protocol/srs_protocol_stream.cpp, the buffer between the
-- socket and the chunk stream. Grow has what grow does, and Refine relates it to the one buffer of
-- all bytes that Protocol/Chunk reads.
--
-- App/Llhls: SrsLlHlsStorage of src/app/srs_app_llhls.cpp. Window, Publish and Latest follow the
-- segments and parts; Wait has the request that wait_for holds, as steps of the storage and the
-- request.
--
-- Kernel/Ts: SrsTsContext of src/kernel/srs_kernel_ts.cpp. Ts cuts a PES packet into TS packets,
-- Context has the program tables and the CRC; Packet, Times, RoundTrip and Context/Tables read them
-- back as a receiver does. Kernel/Ts/Cache: SrsTsMessageCache; Adts and Audio, AnnexB, AccessUnit
-- and Video read back what it appends, and Relay follows a frame from the FLV tag through the codec
-- parser to its access unit.
--
-- Kernel/Format: SrsFormat of src/kernel/srs_kernel_codec.cpp, the codec parser. Sps has
-- SrsBitBuffer (with the rules for it in Sps/Bits) and the size in a sequence parameter set, Avc
-- the sequence header and the NALUs of H.264, Demux the payloads of FLV tags. Rules and Parses hold
-- the rules by which a parser is checked: that it ends without a failed assert, and that it reads a
-- given wire form.
--
-- Integers are bit patterns, numbers below 2 ^ width; a string is the list of its bytes; a double
-- is its 64 bits. After an error no caller reads the buffer again, so an error carries no state.
-- The readers of nested values take fuel, one unit for a nested value and one for a property; since
-- each takes a byte at least, the number of bytes left, and one more, is enough.
--
-- The loop of SrsMessageQueue::enqueue takes two units of fuel, since one shrink() ends it. Sending
-- a control packet takes one unit for each of its bytes, which are 10 at most, and the loop of
-- recv_message one for each chunk.
--
-- The loop of SrsFastStream::grow takes as many units as bytes are required, since each read gives
-- one at least.
--
-- The loop of SrsTsContext::encode_pes takes a unit for a packet, and each packet a byte at least,
-- so the length of the PES packet is enough.
--
-- on_video takes eight units of fuel for each byte of the payload and of the stored SPS, since the
-- loop over the zeros of a number of the SPS takes one for a bit, and the loop over the NALUs one
-- for a NALU.
--
-- do_decode_message takes the fuel of read_any for the objects of a packet, so its number of bytes
-- is enough.
--
-- The sender takes a unit of fuel for a chunk and the receiver one for a chunk header, so the
-- length of the payload is enough for both.
--
-- Not modelled: the calls of SrsRtmpServer, the playlists and muxers of HLS and low-latency HLS,
-- MP4, HTTP, sockets, threads, log output, file systems and the memory allocator.
mod Base
pub mod App
pub mod Kernel
pub mod Protocol
