-- ===== src/Lib.antt =====
-- mintpool, a node of a peer-to-peer pool of premints (signed mints that anyone can bring on
-- chain). Nodes gossip premints, check them by rules, store them in SQLite, serve them over HTTP,
-- and forget or mark them once they are minted.
--
-- How the parts interact. The controller (src/controller.rs) takes events of the network, commands
-- of the API and a ticker. A premint goes through `validate_and_insert`: the rules engine
-- (src/rules.rs) reads the storage behind the trait `Reader` and the chain behind an RPC, and gives
-- results; accepted premints go to the storage (src/storage.rs). A claim that a premint was minted
-- goes through src/chain.rs to `verify_claim` of the premint's type (src/types.rs,
-- src/premints/zora_premint) and then to the storage. The swarm controller (src/p2p.rs) does what the
-- controller commands of libp2p's swarm, and turns messages of other nodes into the controller's
-- events; src/run.rs wires the two. The API (src/api) and the console (src/stdin.rs) send commands
-- through `ControllerInterface`. The list of chains (src/chain_list.rs) gives the RPC of a chain. The
-- hash tree (src/sync.rs) compares the contents of two nodes.
--
-- The files:
--   Sync      src/sync.rs. Node: `Node`, `update_hash`, `rehash`. Insert: `Node::insert`. Diff:
--             `Node::diff`. TreeSet: `TreeSet` and its visitors. A list of children is a type beside
--             the type of nodes; the item's bounds are the interface Prelude.Item; the hasher is a
--             function on the bytes fed to it.
--   Types     src/types.rs. Data: the plain records. Premint: `SimplePremint`, `PremintTypes`.
--   Zora      src/premints/zora_premint/{types,v2,erc20v1,contract}.rs: the macro's type, over the
--             token configuration, with the macro's arguments as a record `Namespace`.
--   Storage   src/storage.rs and the migration. Table: the rows, and each SQL statement as a function
--             on them; the rows stand in the order of insertion. Store: `store`,
--             `mark_seen_on_chain`. Query: the readers and `build_query`. History: sequences of
--             writes as a step relation.
--   Rules     src/rules.rs and src/premints/zora_premint/rules.rs. Evaluation: `Evaluation`,
--             `Results`. Context: the traits `Reader` and `Rule` and `RuleContext`; `reader` is the
--             storage's instance. General, Signed: the rules. Engine: `RulesEngine`.
--   Config    src/config.rs.
--   Chain     src/chain.rs: `inclusion_claim_correct`; Watcher: `poll_for_new_mints` as a function of
--             what its connections bring, since the loop itself does not end; BootNodes:
--             `get_contract_boot_nodes`.
--   ChainList  src/chain_list.rs: `Chains` as a list, with the connections made; Variables:
--             VARIABLE_REGEX as a recursive test.
--   Controller  src/controller.rs. State: messages, `validate_and_insert`, `request_sync`. Events:
--             `handle_event`. Commands: `handle_command`, `run_loop` over a list of inputs with
--             their times. Tasks: the interleavings of the insertions of a sync response, which
--             `handle_event` runs one after another. The state has the database, what was sent to the
--             swarm and to callers. Races: what the order of the tasks decides. Interface:
--             `ControllerInterface`, and what a oneshot channel brings.
--   Network   src/p2p.rs and src/multiaddr_ext.rs. Topics: the topics of src/types.rs and their hashes.
--             State: what the swarm reports, the calls made of it, and the swarm controller's state.
--             Peers: dialling, limits, the network's state. Gossip: messages. Requests: syncing.
--             Events: `handle_swarm_event`. Commands: `handle_command`, `run`, `run_loop`. Creation:
--             `new`. Delivery, MessageIds, Subscriptions, Bounds: their theorems. Pool, Claims: two
--             nodes together.
--   Startup   src/run.rs: the key, the boot nodes, the watched chains. Services:
--             `start_p2p_services`. Process: `main` of src/main.rs. Dialling, Answers: what the
--             controllers make of the first commands. Starts: when the process starts.
--   Console   src/stdin.rs: the command that a line asks for.
--   Api       src/api. Routes: the handlers. Admin: those behind the secret, and its check. Router: the
--             routes of src/api/mod.rs. Service: `start_api`. Access, Effects, Submissions, Summaries:
--             their theorems.
--   Fixtures  libraries and premints for the runs; the modules Tests run the parts.
--
-- Asynchronous functions that await only the database or the network are functions on the state;
-- the rules of one evaluation, which only read, see one database. A panic is `none`. Errors of
-- `eyre` are the type `Report`, which keeps apart the one error that the program looks for. A u64 is
-- a natural number; where the program converts one (`as i64`, the four bytes of a hash, the product
-- of the lookback), the wrap is written out. All recursion is on lists, trees or texts, but for the
-- printing of a number in Prelude.Decimal: its fuel is the number itself, and a number has at most as
-- many digits as its value and one more.
--
-- The swarm controller. libp2p is a library, so its swarm is not modelled: what it reports is an
-- input (`View`) of each turn, which holds until the handler is done, since the handlers await only
-- channels; the calls made of it are recorded in order (`Call`), and the result of a call is a function
-- of the calls before it. Where the text of a request waits for the controller's reply on a oneshot
-- channel, that reply is an argument, and Network.Pool, Api.Submissions and Startup.Process put the
-- controller's own reply in its place.
--
-- Parameters are what libraries and chains give: the hasher xxh3, the printing of addresses and
-- times (`Formats`), serde_json (`Json`), the decoding of events, contract calls (`Contract`,
-- `Provider`, `BootNodesContract`), signatures (`Crypto`), SHA-256, addresses, the random choice of a
-- peer and the results of libp2p's calls (`Libs`), hex and keys, the environment, connections and their
-- cache, the start's `Resources` and `Machine`, and axum's matching of paths. `{:?}` of a text and
-- `String::from_utf8_lossy` of the standard library are parameters too: their tables of Unicode are
-- not repeated here. Hypotheses on parameters are `FormatsLaws`,
-- `RoundTrips`, `TopicLaws`, `LibsLaws` and `DigestLaws`.
--
-- Not modelled: the building of the swarm, the rate limits, timeouts and metrics of the API,
-- the tickers, logging, and the spawning of tasks. They are I/O or libraries around the parts above.
pub mod Prelude
pub mod Sync
pub mod Types
pub mod Zora
pub mod Storage
pub mod Rules
pub mod Config
pub mod Chain
pub mod ChainList
pub mod Controller
pub mod Network
pub mod Startup
pub mod Console
pub mod Api
pub mod Fixtures
