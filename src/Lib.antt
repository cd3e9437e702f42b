-- ===== src/Lib.antt =====
-- rsms: a library for the short message protocols CMPP, SMGP, SGIP and SMPP.
-- A client or server holds a session per connection, sends submits through a sliding window, cuts long
-- messages into segments, matches each submit with its response and its later report, and merges the
-- segments of inbound long messages.
--
-- Common: Boolean tests and lists over the native numbers, results, equality as an instance, bytes,
--   association lists with their laws, decimal text, and Utf8: String::from_utf8_lossy of the standard
--   library as an automaton on bytes.
-- Core: crates/rsms-core/src. Error (error.rs), Protocol (protocol.rs), Pstring (pstring.rs: strings in
--   fixed-width fields), Cstring (cstring.rs: strings that end in NUL).
-- Stream: the frame.rs of crates/rsms-codec-cmpp, -smgp, -smpp and -sgip: the decoder that cuts a byte
--   stream into frames (decode_frames, FrameDecoder), with the protocol as an argument. A received
--   chunk is a list of bytes; Chunks feeds any number of them.
-- Wire: the reads and writes that the bodies of the codecs are made of, and their errors (Error: the
--   CodecError of the codec.rs files). Fields has a reader and a writer per kind of field, Body those of
--   the datatypes; Trip relates a writer with the reader that gives the value back, and a body's trip is
--   put together from its fields' in their order. Whole does this for a frame that ends behind the
--   value, Readers bounds what a reader takes.
-- Cmpp: crates/rsms-codec-cmpp. Command (datatypes/command_id.rs), Header (header.rs: parse_pdu),
--   PduHeader (codec.rs: PduHeader), the bodies of datatypes/ in Connect, Simple (active_test.rs and
--   terminate.rs), Query, Submit, Deliver, Responses (the responses of submit.rs and deliver.rs),
--   SubmitV20 and DeliverV20 (v20.rs); Pdu (codec.rs: Pdu), Registry (registry.rs), Message
--   (message.rs), RoundTrip with Sent and Entries on whole messages.
-- Smgp: crates/rsms-codec-smgp. Command, PduHeader, Pdu (codec.rs), Tlv (datatypes/tlv.rs) with Params,
--   Loop and Strings, MsgId, Login, Simple (active_test.rs), Submit, Deliver, Query (deliver.rs: Query),
--   Message (message.rs), RoundTrip.
-- Sgip: crates/rsms-codec-sgip. Command, Sequence (sgip_sequence.rs), PduHeader and Pdu (codec.rs),
--   Bind, Unbind, Submit, Deliver, Report (deliver.rs: Report, Trace and their responses), Message
--   (message.rs: the second decoder of the same bodies), ReadBack on the two together.
-- Longmsg: crates/rsms-longmsg. Frame (frame.rs: UdhHeader, UdhParser), Bitmap (segment_bitmap.rs),
--   ReferenceId (reference_id.rs), Split (split.rs: split, split_into_pdu), Merge (merge.rs:
--   LongMessageMerger.add_frame and the rest). The rounds of the loop of `split` are a recursion on
--   the number of rounds that are left. A HashSet is a list without repetitions.
-- Session: crates/rsms-session. Machine (state_machine.rs), Context (lib.rs: ConnectionContext) with
--   Agreement on all sequences of its methods, Heartbeat (heartbeat.rs).
-- Transaction: crates/rsms-connector/src/transaction/mod.rs. A method is one step that returns the
--   callbacks it makes; History runs any sequence of them, and Copies counts the
--   transactions of one sequence number.
-- Pool: crates/rsms-connector/src/pool.rs: the fetch of a connection in turns. Rotation has the order
--   in which the loop visits the connections, Turns what the fetches give, Eviction the connections
--   beyond the limit. A connection is a snapshot of what the pool reads of it.
-- Window: crates/rsms-window. A method is one step under the lock of `pending`; `offer`, which tries
--   again whenever it is woken, takes the list of the windows and times that it meets.
-- Each Tests file applies the theorems at concrete data.
--
-- Strings of Rust are lists of bytes where the code builds or compares them, and native strings where
-- they are fixed texts. Machine integers keep their wrap-around (`% 2 ^ w`) where the code can wrap.
-- Time is an argument in a fixed unit. A HashMap or DashMap is an association list that is iterated in
-- its order, which the code leaves open. Loops are recursions on a list or a count; the loop of
-- decode_frames and that of the optional parameters of SMGP run on fuel, the length of the buffer,
-- which is enough since each round removes a byte or four bytes at least.
-- A frame that is written is the list of its bytes; where the code calls expect on an encoder's error,
-- the model returns the error. A field of an integer type holds its value as the type does: the
-- conditions of the theorems bound the fields.
--
-- Not modelled: sockets, tasks, locks and channels of tokio (a full channel drops an event); SMPP,
-- the texts of delivery reports, authentication and the adapters; the table of accounts and
-- the health checker; the rate limiter, which
-- computes in floats; the interleaving of the map operations inside one method of the transaction
-- manager.
pub mod Cmpp
pub mod Common
pub mod Core
pub mod Longmsg
pub mod Pool
pub mod Session
pub mod Sgip
pub mod Smgp
pub mod Stream
pub mod Transaction
pub mod Window
pub mod Wire
