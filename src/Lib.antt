-- ===== src/Lib.antt =====
-- Offst: the credit that two friends give one another, the token that they pass to agree on it, and
-- the sending of payments with it.
--
-- Two nodes that are friends keep one balance, each from its own side. A payment goes along a route
-- of friends: a request freezes credits at each hop, a response signed by the destination comes
-- back, and a collection, which opens two hash locks, moves the credits; a cancellation frees them.
-- At any time one of the two friends holds the token. The holder queues operations on its mutual
-- credit, states the balances that result and sends them in a signed move token; the other side
-- checks the signature and the counters, does the same operations on its own mutual credit, compares
-- the balances, and then holds the token.
--
-- Files and sources:
--   Prelude          shared names, tests, lists, integers, dictionaries, results
--   SafeArith        components/common/src/safe_arithmetic.rs; Exact: what the operations compute
--   Crypto           components/crypto/src/hash_lock.rs and identity.rs
--   Messages         components/proto/src/funder/messages.rs, the data; `create_pending_transaction`
--                    of components/funder/src/types.rs
--   Messages/Serialize  `canonical_serialize`, of that file and of
--                    components/common/src/canonical_serialize.rs
--   Route            `impl FriendsRoute`, of that file; Valid, Pair: what it decides
--   Buffers          components/proto/src/funder/signature_buff.rs; Binding: what a signature over a
--                    response binds; Receipts: receipts and commits
--   Fees             `impl Rate`, of the messages, and components/funder/src/credit_calc.rs
--   MutualCredit     components/funder/src/mutual_credit/types.rs: state and mutations
--     Monad          the calls as actions on the state, with errors and panics
--     Incoming, Outgoing  incoming.rs and outgoing.rs beside it: `process_operation` and
--                    `queue_operation`, with one function for each operation
--     Pending, Words, Requests  lemmas on the pending maps, the 128-bit sums and the requests
--     Invariant, Trust, Funds, Trips, InTurn, Replay, Mirror, Idents, Repeat  what the
--                    operations keep and do
--   TokenChannel     components/funder/src/token_channel.rs: data, `mutate`, creation of move tokens
--                    (`create_unsigned_move_token` and `sign_move_token` of
--                    components/funder/src/types.rs)
--     Create         `new`, `new_from_remote_reset`, `new_from_local_reset`
--     Receive        `handle_incoming` in both directions, `handle_incoming_token_match`
--     Initial, Scan, Received, Sync, Duplicate  the two sides of a channel, and what is received
--   Funder           components/funder/src: the state of a node and what it sends
--     Action         calls as actions on a state, with errors and panics
--     Messages       data of components/proto/src/funder/messages.rs, of
--                    components/proto/src/app_server/messages.rs and of types.rs
--     Friend, State, Liveness  friend.rs, state.rs, liveness.rs and ephemeral.rs: records and `mutate`
--                    (`mutate_friend`, `mutate_state` and so on)
--     Wrap           handler/state_wrap.rs: the state with the list of its mutations, the signing of
--                    responses (`create_response_send_funds` of types.rs); Recorded: the list
--                    of mutations and the state
--     Utils          handler/utils.rs: searches for a transaction among the friends
--     Sender         handler/sender.rs: commands, the pending move token, `queue_operation` (here
--                    `queue_pending`) and `queue_operation_or_cancel`
--       Collect, Send  `collect_outgoing_move_token`; `create_friend_messages` and what it calls
--         (Send/Parts: its variables and the small steps)
--       Queued, Tracks, CollectSteps, Stages, StageSteps, Collected, Canceled, Delivered
--                      what is collected, canceled and sent
--     Canceler       handler/canceler.rs; Counts: the number of transactions of a payment;
--                    Logged: the list of mutations
--     Presence       handler/handle_liveness.rs and handle_init.rs, `MutableEphemeral`; Told: what a
--                    message of liveness changes
--   Graph            components/index_server/src/graph
--     Bfs            bfs.rs; Chain, Unvisited, Scan, Correct: the search and its end
--     Capacity       capacity_graph.rs, simple_capacity_graph.rs, utils.rs and `process_request` of
--                    graph_service.rs; Data: the types; Keys, Edges: what requests do to edges;
--                    Walk, Routes: the routes; Rates: `LinearRate` of components/index_server/src/server.rs
--   SeqMap           components/index_client/src/seq_map.rs; Cover: which keys a cycle visits
--   Ratchet          components/index_server/src/verifier/ratchet.rs; Pool, Replays: the ratchets of a
--                    pool, and what they refuse
--   Verifier         components/index_server/src/verifier/hash_clock.rs and simple_verifier.rs; Expiry,
--                    Once, Sound: when a tick is forgotten, and what is accepted
--   Samples, and the modules Tests: data and runs on it
--
-- Conventions. A method on a record is a function on it, named after the method; `mutate` and `new`
-- of the token channel are `mutate_channel` and `new_channel`, and the two `handle_incoming` are
-- `handle_incoming_in` and `handle_incoming_out`. A method that changes its receiver is an action:
-- it returns a result with the state that it leaves, also on an error. A map is an association list
-- whose `insert` replaces the value of a key, so equality of states is equality of these lists. A
-- fixed array of bytes is the number that its bytes spell, and the bytes are written out where they
-- are signed or hashed. A machine integer is a number or an integer; operations that check for
-- overflow do so at the width, the statements bound what they are given where that matters, and
-- `half128` is 2 ^ 127. A failed `unwrap` is `panic`, or `none` where nothing else can fail, and so
-- is the negation of the least i128, as with overflow checks. Generic keys are those of the callers:
-- public keys for friends and nodes, and a `Uid` for a session. Loops are structural recursions over
-- lists, but for the search in a graph: `bfs` runs on fuel, one round for each node that it takes
-- from the queue, and the capacity graph gives it two rounds more than it has edges, since no node
-- enters the queue twice; the walk back has the size of the map it walks in as fuel. A map is
-- visited in the order of its list. A value `Run` is the end of the fuel or what the code returns.
-- In the funder, what the code draws at random and has signed comes from a `Source`: a function from
-- the number of the draw, and one from the bytes to be signed; the state counts the draws.
--
-- Parameters. `Crypto` holds the hash (SHA-512/256) and the signature check (Ed25519) of the library
-- `ring`; nothing is assumed of them but, in one statement, that a hash has 32 bytes. The bytes of a
-- relay's address are the parameter `serialize_address`. The signature that the identity service
-- makes is an argument of `sign_move_token`. `address_eq` is the equality of the addresses of relays,
-- `LinearRate` what the graph uses of a rate.
--
-- A second part is how an index server knows that a message of a node is recent and new: its clock
-- keeps the hashes of its last ticks, a message shows by a chain of hashes that it follows one of
-- them, and a ratchet for each node refuses counters that are not newer.
--
-- A third part is the index server's graph of capacities: each node reports what it can send to its
-- friends and receive from them, and a payer asks for a route that can carry its payment.
--
-- Not modelled: the handlers of messages from friends and of control
-- (components/funder/src/handler/handle_friend.rs, handle_control.rs, handler.rs), which choose what
-- the sender and the canceler are called with; the reports to the user; the rest of the index
-- server, and the other components, which are mostly asynchronous connections, timers and storage.
pub mod Prelude
pub mod SafeArith
pub mod Crypto
pub mod Messages
pub mod Funder
pub mod Graph
pub mod Route
pub mod Buffers
pub mod MutualCredit
pub mod TokenChannel
pub mod Fees
pub mod Samples
pub mod SeqMap
pub mod Ratchet
pub mod Verifier
