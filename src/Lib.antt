-- ===== src/Lib.antt =====
-- A model of the server of Stammtisch, a voice meeting place: who may do what in a space, who is where
-- and who is told of it, how a client that dropped comes back, how a peer speaks to the server and
-- authenticates, what is configured, stored and logged, and what the media plane is asked.
--
-- The parts, the modules and the Go files that they model.
--   Prelude                  Boolean tests, results, lists, maps, sorting, signed integers, strings
--   Orchestration.EntityId   internal/orchestration/id.go: identifiers, printed and parsed
--   Orchestration.Clock      internal/orchestration/clock.go and grace.go: times and grace periods
--   Orchestration.Domain     internal/orchestration/domain.go: a space, its channels, rooms, occupancies
--   Orchestration.Permission internal/orchestration/permission.go and always_on.go: what is allowed
--   Orchestration.Presence   internal/orchestration/presence.go: the projection of presence reports
--   Orchestration.PresenceHub  internal/orchestration/presence_hub.go: the fan-out to the clients
--   Orchestration.Resume     internal/orchestration/resume.go: suspended clients and their tickets
--   Signalling.Stream        the byte stream under a connection, and the big-endian integers
--   Signalling.Frame         internal/signalling/frame.go: Decode and Encode
--   Signalling.Fields        internal/signalling/negotiation.go: the fields of a payload
--   Signalling.Conn          internal/signalling/conn.go: ReadFrame, WriteFrame and the gate
--   Signalling.Negotiation   internal/signalling/negotiation.go: Hello, Negotiate and its answers
--   Auth.Credential          internal/auth/credential.go: Store, Matches and parse
--   Auth.Sessions            internal/auth/session.go: the tokens, their life and their end
--   Auth.Authenticate        internal/auth/authenticate.go: Authenticate and Admit
--   Config                   internal/config/config.go: the settings, their defaults and their readings
--   Config.Parse             internal/config/config.go: Parse and Report
--   Logging                  internal/logging/logging.go: the fields of a record and its line
--   Store                    internal/store/store.go: names of permissions, the range of a gain
--   Store.Memory             internal/store/memory.go: the store in memory
--   Media                    internal/media/port.go: the port, its data and its documented errors
--   Media.Fake               internal/media/fake/fake.go: the state of the unit and its knobs
--   Media.Fake.Operations    internal/media/fake/fake.go: the twelve methods, in `Requests` as one step
-- A function keeps its name in the source, in lower case with underscores; `Orchestration.EntityId`
-- is the type `ID`. A module named RoundTrip, Invariant, Moves, Listing and the like holds proofs about
-- its parent, and Examples its tests. The two documents that say with which errors the media port may
-- answer, the comments of internal/media/port.go and docs/decisions/media-plane-port.md, differ: the
-- latter has no invalid identity for the four operations on sources. Both lists are in the model. The hub reads the projection of Presence and asks Permission who
-- may see a channel; Resume holds a grace period of Clock; Conn and Negotiation read and write frames,
-- and Negotiation lays out its payloads with Fields. The store in memory answers the grantor that
-- Permission asks, keeping channels of Domain; Auth reads a frame from Conn, looks its token up among
-- the sessions and opens the gate.
--
-- State is passed: an operation takes the record of the state and returns the new one. An error is a
-- constructor of the component's error type, under `Result`; the text of its message is left out. A Go
-- map is an association list in which every key stands once; the order of the list is one of those in
-- which the runtime may walk the map. `sort.Slice` is an insertion sort. A clock is the time that it
-- shows, an argument of each operation that reads it. Machine integers: lengths on the wire are reduced
-- to 16 bits where Go converts them, the revision of a resume register wraps at 2 ^ 64, and a sequence
-- number is only compared.
--
-- The loops are structural recursion, but for three with fuel. The walk over the fields of a payload has
-- the length of the payload, and a turn reads at least four bytes. The digits of a number have the
-- number, and a turn leaves a tenth of it. Trimming spaces has the length of the string, and a turn takes
-- at least one byte.
--
-- Parameters. `Auth.Primitives` holds base64, SHA-256, Argon2id and the scanning of a stored value;
-- what the packages document of them is `IsFaithful`, which `Auth.Examples` fills with plain functions.
-- The bytes that are drawn for a token, a salt or an identifier are arguments, absent where the draw
-- fails, and that an identifier is not drawn twice is a hypothesis. A float64 is its 64 bits, and the
-- order of two of them an argument. Whether a caller's context has ended is an argument.
-- `Config.Readers` holds time.ParseDuration, of which nothing is assumed.
-- In `Logging`, the test of runes is one that no string with a space or a line feed passes.
--
-- Left out: the SQL of the store, the reading of the configuration file, the transport, the
-- measurements under bench and the entry point. The locks guard each method as a whole and are left out. The store in memory
-- keeps the pointer of a channel that it is given; the model keeps the channel, so a caller that
-- changes the channel afterwards is not in the model.
mod Prelude
pub mod Orchestration
pub mod Signalling
pub mod Auth
pub mod Config
pub mod Logging
pub mod Store
pub mod Media
