-- ===== src/Lib.antt =====
-- BoaVoice: a self-hosted voice, chat and screen-sharing program, of a server (crates/boa-server), a
-- client (crates/boa-client) and the protocol they share (crates/boa-proto).
--
-- The parts and how they interact. A client holds a control connection, whose messages a session
-- (session.rs) handles on the hub (hub.rs), the state in memory of who is connected, who is in which
-- voice channel and who watches whom. Joining a channel gives a member two stream ids and the channel's
-- key. Media goes over UDP: the relay (relay.rs) decodes the header of a datagram, asks the hub where it
-- goes, and passes it on unopened, or binds the sender's address where a keepalive verifies under the
-- key. The packets are sealed by the protocol (media.rs), a video frame in fragments, which the client
-- puts together again (screen/recv.rs); the loss that watchers report sets the sharer's bitrate
-- (screen/governor.rs). Samples go between an audio callback and a thread through a ring
-- (audio/ring.rs).
--
-- What survives a restart is in the database (db.rs), which sessions and the HTTP endpoints (http.rs)
-- use; the bytes of attachments are files (blobs.rs) that a janitor removes. A client applies every frame
-- to its state (state.rs), which the interface draws.
--
-- Files, and the code that each one models:
--   Prelude         Boolean tests, lists, association lists, text, bytes, sorting on native numbers
--   Proto/Model     crates/boa-proto/src/model.rs and lib.rs: the data exchanged
--   Proto/Control   crates/boa-proto/src/control.rs: the messages of the control connection
--   Proto/Media     crates/boa-proto/src/media.rs: header, nonce, seal, open, fragments; its laws are in
--                   Media/Header, Media/Sealing and Media/Fragments
--   Server/Hub      crates/boa-server/src/hub.rs: each method of Hub and State is a function on State,
--                   under the method's name. The invariant is Inv in Hub/Inv; Hub/Steps, Hub/Leave,
--                   Hub/Join are about the calls that change members, Hub/Ssrc about stream ids,
--                   Hub/Routing about route, Hub/Outbox about connections and what is queued for them
--   Server/Relay    crates/boa-server/src/relay.rs: turn is one turn of the loop of serve; its laws are
--                   in Relay/Sends
--   Server/Session  crates/boa-server/src/session.rs: identify, handle with a function for each longer
--                   arm, teardown; Session/Serve is the rest of run, open_session and take_frame; its laws
--                   are in Session/Keeps, Session/Requests and Session/Teardown
--   Server/Db       crates/boa-server/src/db.rs: the tables of the schema as lists of rows (Db/Rows), each
--                   method of Db under its name; its laws are in Db/Messages, Db/Authors, Db/Attached and
--                   Db/History. Db/Instance makes it the database of a session, Db/Posting is about both
--   Server/Blobs    crates/boa-server/src/blobs.rs: the disk as a list of files, each operation under its
--                   name; its laws are in Blobs/Sweep (the janitor), Blobs/Names (store and read) and
--                   Blobs/Labels (sanitise_name)
--   Server/Accounts crates/boa-server/src/auth.rs and http.rs: the rules of names and passwords, register,
--                   login and authenticate; its laws are in Accounts/Login
--   Server/Files    crates/boa-server/src/http.rs and blobs.rs: upload, download and content_type_for; the
--                   law of both is in Files/Kept
--   Client/State    crates/boa-client/src/state.rs: apply for every frame, and the reads of the state; its
--                   laws are in State/Log and State/Frames
--   Client/Recv     crates/boa-client/src/screen/recv.rs: feed and take_fragment for Reassembler::feed,
--                   tap_feed for Tap::feed, decode_step for a round of decode_loop; its laws are in
--                   Recv/Pieces, Recv/Delivery, Recv/AnyOrder and Recv/Watching
--   Client/Ring     crates/boa-client/src/audio/ring.rs: each operation under its name; its laws are in
--                   Ring/Cells, Ring/Fifo and Ring/Size
--   Client/Voice    crates/boa-client/src/audio/pipeline.rs: the slots of the speakers and classify; its
--                   laws are in Voice/Slots and Voice/Gaps
--   Client/Governor crates/boa-client/src/screen/governor.rs: report and decide, the steps in floating point
--                   being parameters; its laws are in Governor/Bounds
--   System/Roster   a session's handlers and the client's state together: what a client knows of the voice
--                   channels once it has applied what is queued for it. A handler is followed call by call
--                   of the hub with Server/Session/Induct: Roster/Mirrors and Roster/Moves are about those
--                   calls, Roster/Handle about the handler, Roster/Open about connections that open and
--                   close, Roster/Run about whole runs
--   Tests           runs at fixed inputs
--
-- How it is modelled. A struct is a record and an enum a data type. A hash map is an association list;
-- nothing is said of the order in which the code walks one. Bytes, ids and addresses are numbers;
-- machine arithmetic keeps its wrap-around. What is outside the repository is an argument: the cipher
-- ChaCha20-Poly1305 is the interface Aead with the laws of IsAead, a session's database is the
-- interface Db with no law at all, and the clock, fresh random keys and tokens, Argon2, the digest
-- SHA-256, the number that SQLite gives a new row, what the file system refuses to write, rename or
-- remove, the size of an image, the JSON parser and the answers of the H.264 decoder are passed in. A
-- statement of SQL is a function on the rows of its tables.
--
-- Bounds and fuel. The loop of take_ssrc runs on fuel of the number of live stream ids and two: zero and
-- the live ids are the only ones it skips. chunks runs on as many rounds as the slice has bytes, each
-- round taking one at least. next_power_of_two doubles 64 times at most, the width of usize.
--
-- Not modelled. A call on the hub is one step, since a mutex guards it, and so is a whole handler:
-- what other connections do between two calls of one handler is not covered. The interleavings of the
-- atomics of the ring and of the receiver's threads are not covered either. A connection's queue keeps
-- what was sent, so that a client's state is that before the queue with the queue applied. Errors of
-- the disk below SQLite, and of reading or listing files that are there, are not covered. Left out
-- altogether: the interface, settings, sound (but for the slots and gaps of received voice) and screen
-- capture, encoders, file transfer and network tasks of the client; the configuration of the server,
-- the routing of HTTP.
pub mod Prelude
pub mod Proto
pub mod Server
pub mod Client
pub mod System
pub mod Tests
