-- ===== src/Lib.antt =====
-- titanirc: a model of the IRC server of src/, with what it promises.
--
-- The server is a set of actors that send one another messages. `Server` (src/server.rs) knows the
-- connected clients, the channels and the server-wide bans; each `Channel` (src/channel.rs) knows
-- its members, its topic and the permissions of masks; each `Client` (src/client.rs) passes the
-- commands of one user on, after src/main.rs and the negotiation of src/connection.rs have let the
-- user in; `Persistence` (src/persistence.rs) keeps what has to last. Masks and the trie that they
-- are looked up in are src/host_mask.rs, and the levels of permission src/channel/permissions.rs. A
-- handler of an actor is a function from its state and the message to the new state, what is sent,
-- in order, and the answer; a run is a list of messages. An `Addr` is a number, a string a list of
-- scalar values, a `HashMap` an association list, a time a number.
--
-- The files:
--   Base: shared names, tests, lists, maps and strings with their lemmas.
--   HostMask: `HostMask`, its text and its parser. HostMask/RoundTrip: parsing and printing.
--   HostMaskMap: the trie of src/host_mask.rs, function by function. Paths, WellFormed, Stored and
--     Induction describe a trie as a map from paths of keys to values; Insertion, Removal and
--     Deletion, Matching, Globs, Iteration and Printing are about `insert`, `remove`, `get`, masks
--     as globs, `iter`, and the texts that `iter` gives. Table compares the trie with a plain table
--     of masks, and Alike two tries with one another.
--   Irc: the data of the `irc_proto` crate, whose functions are the parameter `IrcLibrary`.
--   Permission: `Permission` and its rights. Permission/Laws: their order.
--   Connection: the record of a connection, with Sasl (src/connection/sasl.rs), Authenticate
--     (src/connection/authenticate.rs), Negotiation (`negotiate_client_connection`), and Proof and
--     Laws about them.
--   Messages: src/messages.rs and the events of src/persistence/events.rs.
--   Persistence: src/persistence.rs, with the tables of its queries as lists of rows. Upkeep has
--     the bans and the deletion of old messages, Mailbox the events that are not answered; Clock,
--     Replay with Missed, Ordering with Sorted, Overflow, and Truncation are about nicks and times,
--     about stored messages, their order and which of them a user is given, the range of the clock,
--     and the deletion of messages.
--   Channel: src/channel.rs. Responses (src/channel/response.rs), Handlers and Handlers/Membership
--     are the handlers; Access, Escalation, Delivery, Joining, Leaving and Mailbox with Staying and
--     Founders are about permissions, mode changes, messages, joins, leaving, and runs. Store is the
--     channel with its database, as for the server: Rows, Writing, Entering and Turns (with Silence)
--     keep the permissions of the two the same, Loading and Restart follow from that, and Unreadable
--     is about masks that cannot be read back.
--   Server: src/server.rs. Responses (src/server/response.rs), Handlers, Queries and Bans are the
--     handlers; Protocol is the trait of the answers, and Addressed about whom they are for;
--     Bans/Enforcement, Bans/Expiry and Bans/Readable, Routing and Mailbox are about bans, who
--     hears what, and runs. Store is the server with its database: Sync and Steps keep their bans
--     the same, Restart and Panics follow from that.
--   Client: src/client.rs. Handlers, Joining, Answers and Stream are the handlers, Stream with the
--     dispatch of commands; Guards, State, Names and Liveness are about what a user may cause, what
--     a command changes, lists of names, and pings.
--   Proto: src/proto.rs. Proto/Laws: the masks that its commands carry.
--   Config: src/config.rs. Database: the tables that src/database/mod.rs and src/keys.rs read and
--     write, with Registration and Salt about users and the salt.
--   Acceptor: src/main.rs, from the accepted connection to the new client. Acceptor/Admission: who
--     gets in.
--   System: the actors together: what a client sends, handled by the server and the channels, and
--     what these send to the database. Spreading, Renaming, Departure, Offline and Absent follow a
--     message to its end, Answers and Whois a question.
--   Tests: runs on concrete data.
--
-- Bounds and fuel: `insert` of the trie recurses on the number of characters that are left of the
-- mask, which is enough for every trie of the right shape; all other loops are structural. Sizes
-- are unbounded numbers, and so are times, in nanoseconds, with the bounds of the `chrono` crate
-- where a user's duration meets them: a ban that expires past `MAX_UTC` panics the server, and one
-- whose times are no `i64` the database. The clock's own readings, and these less the configured
-- time span, are taken to be in range. The discriminants of `Permission` are the source's `i16`
-- values.
--
-- Parameters: base64, UTF-8, the hash of an address, the user table as the negotiation sees it
-- (`Credentials`, `Hashing`; Database gives one), Argon2, random bytes, the parsers of durations
-- and of toml, the reading of a file, the answers of other actors, the clock, and the printing of
-- times and addresses (`Printing`). The model takes writes to a client and queries to succeed, so
-- the users and channels that other rows name are taken to be there, but for a ban, which is refused
-- when its times are out of range, its mask is banned already or its requester is no user, and for
-- the masks of a channel that are not read back. In Server/Store a panic of the server or of its
-- database ends the run; in System the database's panics are left out, and a handler that panics
-- sends nothing.
--
-- Not modelled: the listener, the codec of the stream and the choice of threads in src/main.rs, the
-- command line, the derived codecs of the database, and tracing throughout.
pub mod Base
pub mod HostMask
pub mod HostMaskMap
pub mod Irc
pub mod Permission
pub mod Connection
pub mod Messages
pub mod Channel
pub mod Server
pub mod Client
pub mod Persistence
pub mod Proto
pub mod Config
pub mod Database
pub mod Acceptor
pub mod System
pub mod Tests
