-- ===== src/Lib.antt =====
-- A verification library for the Battle.net server of this repository: the rules of
-- crates/bnetcc-core that decide who may connect, log on, hold a CD key, talk and lead a channel,
-- and the part of the node (crates/bnetccd) that applies them to a session, with the wire under
-- them (crates/bnetcc-proto) and the store of accounts behind them (crates/bnetcc-storage).
--
-- How the parts interact. A socket's bytes gather in a receive buffer, from which the node takes
-- every complete frame or line after each read, and whose fields it reads within bounds (Wire). A
-- node takes its policy from the hub and may only narrow it (Policy). A connection is admitted by
-- its class and address under that policy, and held to its rate of messages (Limits). A session
-- then walks through the states of the BNCS protocol; the packet loop consults the state machine
-- before each packet and advances it after each handled one, and the version check claims the
-- session's CD keys (Session). A session that is past the logon joins channels, where operator is
-- granted on arrival or by name, is handed on to designated heirs, and allows kicks and bans
-- (Channel). Users of other platforms stand in channels under names that a bridge derives (Bridge),
-- which nobody can register as an account: accounts and their attributes stand in a store, before
-- which a buffer gathers the writes of attributes, and whose schema says who may read and write
-- which of them (Storage). A finished game is settled from its players' reports, and the players'
-- records make the standings (Ladder). A client that asks is shown the next banner (Ads).
--
-- Files, and the code that they model:
--   Base          helpers: association maps (Base/Map), sets (Base/Set), lists, Boolean tests
--   Client        ClientClass and IpAddr (crates/bnetcc-core/src/limits.rs)
--   Text          str as a list of code points, with the functions of Rust's library that the code uses
--   Wire          crates/bnetcc-proto/src: Wire is error.rs; Wire/Reader, Wire/Writer and Wire/Buffer
--                 are Reader, Writer and RecvBuf of buf.rs, Wire/Fields reads and writes whole
--                 bodies with them; Wire/Bncs, Wire/Mcp and Wire/Line are the decoders and encoders
--                 of bncs.rs, mcp.rs and line.rs, all of them instances of the interface
--                 Wire/Framing; Wire/Stream is the loop of crates/bnetccd/src/session.rs over them
--   Storage       crates/bnetcc-storage/src: Storage/Names is validate_account_name of lib.rs,
--                 Storage/Memory is MemoryStorage, Storage/WriteBehind is write_behind.rs over the
--                 interface Backend of Storage, which Storage/Memory/Behind fills; Storage/Schema is
--                 attr.rs
--   Policy        crates/bnetcc-core/src/policy.rs; Policy/Narrow on Policy::narrowed_by, Policy/Modes
--                 on Policy::for_mode and ClientLimits::patch_product
--   Limits        crates/bnetcc-core/src/limits.rs: Limits/Admission is AdmissionTable, Limits/Flood is
--                 FloodTracker, Limits/Keys is KeyRegistry
--   Ladder        crates/bnetcc-core/src/ladder/war3.rs; Ladder/Standings is ladder.rs but rating_after
--   Ads           crates/bnetcc-core/src/ads.rs
--   Session       crates/bnetcc-core/src/session.rs (SessionState), the packet loop and Session::handle
--                 of crates/bnetccd/src/session.rs; Session/Sid holds the identifiers of
--                 crates/bnetcc-proto/src/bncs.rs; Session/AuthCheck is Session::auth_check with
--                 claim_key and release_key of crates/bnetccd/src/node.rs
--   Chat          sanitize_chat_text and normalize_channel_name of crates/bnetcc-proto/src/chat.rs
--   Channel       crates/bnetcc-core/src/channel.rs: Channel (its data in Channel/State);
--                 Channel/Names holds classify_name, op_grant_for_name, designated_op_name and
--                 gateway_may_join
--   Bridge        crates/bnetcc-core/src/bridge.rs: tags and derived names; Bridge/Registry is
--                 BridgeRegistry, Bridge/Origin is OriginChain
--
-- State is passed explicitly: an operation on &mut self gives the changed record with its result,
-- and a refusal gives the record back unchanged where the code changes nothing. Numbers are natural
-- numbers; where the code adds on u32 or u64 the wrap-around is written out, saturating subtraction
-- is the truncated one, and times are arguments as in the code. A HashMap is an association list
-- under a decidable equality, a HashSet of numbers a list; no property depends on their order. A
-- panic of a byte slice is a value of its own (Channel/Names). Loops run over lists, with these
-- exceptions: the loop over the frames of a buffer has fuel for one more turn than there are bytes,
-- which is enough because every frame has a byte (Wire/Stream/Ends); the decimals of a u32 are
-- written with ten places, which is enough (Bridge/Suffix), and the suffixes of a bridged name are
-- counted down from 98, as in the code.
--
-- The node's version policy is a parameter: the policy and its versions are arguments of
-- Session/AuthCheck. So is what a packet's handler does to the session: that it closes it, or goes
-- on and may set the account, is an argument of the packet loop. The keys of one frame are claimed
-- without another session between the claims, although the code takes its lock for each of them. A
-- change of experience is a gain or a loss, and its loss factor a number of hundredths: each
-- product of a number of the charts and a factor rounds as that of the floats does. Not modelled:
-- the ratings of rating_after, which are floats to a power, sockets, tasks and timers, the other
-- wire formats, the database, federation, and the daemon's maps of channels and sessions.
--
-- The backend of the write-behind layer is a parameter: its calls, what it holds of an account, and
-- that a batch is taken whole or not at all are the fields of Storage.Backend.
pub mod Base
pub mod Client
pub mod Text
pub mod Wire
pub mod Storage
pub mod Policy
pub mod Limits
pub mod Session
pub mod Chat
pub mod Channel
pub mod Bridge
pub mod Ladder
pub mod Ads
