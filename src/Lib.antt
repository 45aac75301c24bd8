-- ===== src/Lib.antt =====
-- The authorisation rules and the state resolution algorithm of a Matrix homeserver.
--
-- A room is a graph of events. `auth_check` decides whether an event may be added to a state, and
-- `resolve` merges the states of several branches into one; it calls `auth_check` on each event of
-- a conflict. The modules, and the code that they model:
-- - StateRes.Event: the accessors of the trait `Event` (src/core/matrix/event.rs) and
--   `Pdu::room_id_or_hash` (src/core/matrix/pdu.rs).
-- - StateRes.Result: src/core/matrix/state_res/error.rs. An outcome is a value, an error or a panic:
--   every `unwrap` and `expect` that the data decide is a `panic` of the model.
-- - StateRes.RoomVersion: src/core/matrix/state_res/room_version.rs, and the version of the
--   algorithm that `resolve` selects.
-- - StateRes.Content: the structs of contents, and `Ruma`, the record of what the code calls of ruma
--   and serde_json. Each theorem holds for all its values; the examples use the one in
--   StateRes.Samples.
-- - StateRes.PowerLevels: src/core/matrix/state_res/power_levels.rs. The binary search of the
--   standard library is written out with the length as its fuel; every round halves the size.
-- - StateRes.Auth: src/core/matrix/state_res/event_auth.rs. Types is `auth_types_for_event`; Check is
--   `auth_check` with a definition for each group of rules in Stages; Membership is
--   `valid_membership_change`, whose locals are the record `Facts` and whose match is `judge`; Levels
--   is `check_power_levels`; Send has `can_send_event`, `get_send_level` and `check_redaction`;
--   Invite is `verify_third_party_invite`.
-- - StateRes.Resolve: src/core/matrix/state_res/mod.rs. Separate has `separate` and
--   `get_auth_chain_diff`; Iterative is `iterative_auth_check`; Topological is
--   `lexicographical_topological_sort`; Mainline is `mainline_sort` with `get_mainline_depth`; Power
--   is `reverse_topological_power_sort` with the graph that it sorts; Subgraph is
--   `calculate_conflicted_subgraph`; Whole is `resolve`.
-- - Pdu: src/core/matrix/pdu. Count is `Count` (count.rs), the number of an event in the database;
--   RawId is the key of an event (raw_id.rs) with its identifier (id.rs). Common.Words has the
--   operations of `u64` and `i64` that they use.
-- - StateCompressor: src/service/rooms/state_compressor/mod.rs, which keeps the states of rooms that
--   `resolve` merges. Diff is `StateDiff` with its bytes in the database; the parent module has
--   `new_shortstatehash_info`, `save_state_from_diff` and `save_state`. Common.Sets are its sets.
-- - RegistrationTokens: src/service/registration_tokens, the tokens with which accounts are created.
--   Data has their metadata and the table of the database (data.rs); the parent module validates,
--   marks, revokes and lists them. serde_json is the parameter `Json`, and a clock is one too.
--
-- Maps are lists of entries, of which the first with a key counts. The order in which a hash map or set
-- gives its items is a parameter where it can decide an outcome: `Arrival` for sets of events,
-- `MapOrder` for the state that an event is checked against. Elsewhere the items stand in the order in
-- which they were put in. Counts are `usize` on 64 bits, saturating or
-- wrapping as in the code. `Int` is ℤ, since the code only compares. Log output is left out, and so
-- are the texts of errors. Streams that fetch events concurrently are loops over a list, and the
-- order in which the fetches finish is the parameter `Arrival` wherever it can matter.
--
-- Loops that are not over a list run on fuel, and answer `none` where it runs out: the number of
-- edges and nodes is enough for the topological sort, the rank of the events in a graph without
-- cycles for the mainline sort, the cost of the events (more than that of their auth events together)
-- for the graph of the power sort, and the auth events of all known events for the conflicted
-- subgraph; so there is enough fuel for `resolve`. A state is loaded with one fuel for each layer.
-- A `BinaryHeap` is a list from which a least item is taken; `sort_by_key` is the insertion sort,
-- whose result is that of every stable sort; a `BTreeSet` is a list without repetitions in the order
-- in which the items were put in.
--
-- Not modelled: the assertions of debug builds; the LRU cache of loaded states, which a third-party
-- library evicts from; and all other parts of the server: its other services, the rest of the
-- database, the HTTP handlers, the admin commands and the configuration.
mod Common
pub mod Pdu
pub mod RegistrationTokens
pub mod StateCompressor
pub mod StateRes
