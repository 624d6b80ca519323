-- ===== src/Lib.antt =====
-- The gossip membership service of src/sw/gossip-net: members hear rumors about each other in UDP
-- datagrams, merge them, spread them for a while, and keep the settled ones as stable members.
--
-- The parts, and the files that model them:
-- * Node (utils.h, utils.cpp): `Node`, `NodeStatus`, `operator<` as `lt`, `parse_status`. Wire
--   (utils.h): `parse_node` and `parse_rumors` over the arguments of a command.
-- * Resp (resp.h, resp.cpp): `RespRequestParser` as `parse`, one round of its loop as `parse_one`, the
--   loop over the arguments as `read_args`. Resp/Builder: the appends of `RespReplyBuilder`, each from
--   the buffer to the buffer.
-- * Members (member_set.h, member_set.cpp): `MemberSet`, its `try_update`, `add` and `fetch`.
--   Members/Turns: fetches one after the other.
-- * Recent (recently_updated_set.h, recently_updated_set.cpp): `RecentlyUpdatedSet`, its `add`, and
--   `fetch` with `_fetch_all` as `fetch_all` and the loop of `_fetch` as `drain`. Recent/Fair: many
--   fetches of few members, through a queue in the order of `MemberCmp`.
-- * Pending (pending_lists.h, pending_lists.cpp, task.h, task.cpp): `PendingLists` and the one class of
--   tasks, `PingReqTask`.
-- * Net (gossip_net.h, gossip_net.cpp): `GossipNet`, with `update`, `_build_rumors`, `ack`, `ping`,
--   `add_task` and `do_task`. It holds the two sets, the tasks, and the events that wait in the server.
--   Net/Steady: the interface `IsSteady`, of what an invariant has to stand for every call and every
--   datagram to keep it; each invariant of a life fills it. Net/Known: the invariant that every node which
--   a member holds or sends is of one kind, for any kind. Net/Written: the datagrams of `ack` and
--   `ping`. Net/Story: what is known of an id, as a specification of how it may change.
-- * Command (command.h, command.cpp): the three commands, from their arguments to the calls of
--   `GossipNet`, and the `catch` of `Command::run`. Command/Spoken: the arguments that they understand.
-- * Server (udp_server.h, udp_server.cpp): the table of commands, `_handle`, `_on_read`, `_on_event`.
--   Server/Calls: what the loop and a user may call, as `Call`. Server/Life: the constructor of
--   `GossipNet` as `created`, and the states that such calls lead to, as `Reach`. Server/Heard: a
--   command from its datagram on, Server/Exchange and Server/Asks: a `ping`, an `ack` or a
--   `ping-req` and what it makes the member send. Server/Lossless: what the calls without news leave
--   of what is known.
-- * Uv (uv_utils.h, uv_utils.cpp): the functions that make handles, over the codes of libuv and the
--   memory of the program, and `LoopDeleter` as `delete_loop`. Socket (udp_server.h, udp_server.cpp):
--   the constructor and destructor of `UdpServer`, `_send`, `_on_send`, and the loop of `_on_event`.
-- * Cluster (gossip_net.cpp, udp_server.cpp): several members as interleaved steps on one network, which
--   keeps every datagram that was handed over, to come anywhere and any number of times.
--   Cluster/Alone: what the calls of its own user make of a member, as `Alone`.
-- Outcome holds the results of calls, Exec the state that they pass on, Table the hash maps, Decimal
-- the numbers of the wire, Prelude what the modules share, and Tests concrete inputs. A datagram goes
-- from Server through Resp to Command, whose arguments Wire reads; Net merges what it says into Members
-- and Recent, runs the tasks of Pending, and queues the answer that Resp/Builder writes,
-- which Socket hands to libuv.
--
-- How the model stands to the code:
-- * A thrown `Error` is `throws`. A failed `assert`, a read outside a buffer or a list of arguments,
--   and the `std::length_error` of `reserve` are `fault`; assertions are taken to be compiled in. Other
--   exceptions of the standard library, such as `bad_alloc`, are left out.
-- * libuv is a parameter, `Libuv`: each call gives a code and leaves another state of the loop. What it
--   documents of the handles of a loop is the hypothesis `IsLibuv`. Memory is the list of the blocks
--   that are allocated; a handle that is used after its block was freed is a `fault`, and so is an
--   exception that reaches libuv or the thread.
-- * The cast of the logarithm of 0 in `_build_rumors` is a `fault`, Net/Lone. A product of `lambda` and
--   the logarithm beyond 64 bits, whose cast is undefined too, is left out.
-- * A string is the list of its bytes. Lengths and counts are natural numbers; the sum `len + 2` of
--   `_parse_argv` wraps at 64 bits, and the counters `idx` of `parse` and of
--   `MemberSet::_fetch` at 32. Versions are numbers below 2 ^ 64 and ports 32-bit integers wherever
--   they are parsed.
-- * An `unordered_map` is the list of its elements in iteration order, the position of a new element a
--   parameter (`Slot`). The change of order in a rehash is not modelled. The cursor of `MemberSet` is
--   the place at which its list is split, and a rehash is taken to leave it valid.
-- * The order in which the priority queue of `_fetch` gives up its elements (`Pops`), the logarithm of
--   `_build_rumors` (`scaled_log`) and the clock (`now`) are parameters too, gathered in `Env`.
-- * The parser's loops have fuel one more than the bytes left, and `parse_rumors` one more than the
--   arguments: each round uses up at least one of them. `MemberSet::_fetch` has fuel one more
--   than the members that it is asked for, which is enough unless its counter wraps before; then no
--   fuel is, and the fault is `endless`. `emit` of Decimal has fuel one more than the number.
-- * The repository does not compile as it stands, and where two of its files disagree the model takes
--   this reading: bare names in `operator<` are the fields of `lhs`, `version` in `_append_node` is
--   `node.version`, `PingReqTask(id, node)` is a task under the peer's id that acknowledges to the
--   sender in the name of the peer, `add` of a task is `add_task`, and `_fetch_all` takes the limit of
--   the count only.
--
-- Not modelled: the bodies of libuv, which are not part of the repository; the log lines; the casts of
-- handles; and the mutexes, each of which guards one step of the model. `stop` and the destructor of
-- `GossipNet` take as an argument whether the thread of the server has come to its end.
mod Prelude
pub mod Outcome
pub mod Decimal
pub mod Node
pub mod Table
pub mod Resp
pub mod Uv
pub mod Socket
pub mod Cluster
pub mod Wire
pub mod Recent
pub mod Members
pub mod Pending
pub mod Exec
pub mod Net
pub mod Command
pub mod Server
mod Tests
