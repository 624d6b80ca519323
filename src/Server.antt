-- ===== src/Server.antt =====
-- udp_server.h and udp_server.cpp: the table of commands, the handling of a datagram, and the queue
-- of the messages to send.
pub mod Handling
pub mod Heard
pub mod Whole
pub mod Calls
pub mod Life
pub mod Spent
pub mod Written
pub mod Lossless
pub mod Exchange
pub mod Asks
use gossip_net.Prelude.{
  ℕ, take, ◌==◌, Option, none, some, List, [], ◌∷◌, ◌++◌, Bytes, if◌then◌else◌,
}
use gossip_net.Outcome.{Outcome, ok, throws, fault, null_command, already_registered, ◌>>=◌}
use gossip_net.Exec.{Exec, continue}
use gossip_net.Exec
use gossip_net.Decimal.Int.{ℤ, pos, negsuc}
use gossip_net.Table.{Slot, keys, find, insert_at}
use gossip_net.Resp.{RespRequest, parse}
use gossip_net.Net.{Env, Event, GossipNet}
use gossip_net.Command.{Command, ping_command, ping_req_command, ack_command, name, run}

abbrev pub Commands : Type 0
Commands = List (Bytes × Command)

-- A null `unique_ptr` is none; `emplace` does nothing to a name that is there.
unfoldable pub register_command : Slot → Option Command → Commands → Outcome Commands
register_command slot none commands = throws null_command
register_command slot (some c) commands = elim (find (name c) commands) [
  | some _ ↦ throws already_registered
  | none ↦ ok (insert_at (slot (keys commands) (name c)) (name c, c) commands)
]

-- The constructor of `GossipNet` registers the three commands.
unfoldable pub register_all : Slot → Outcome Commands
register_all slot = do
  one ← register_command slot (some ping_command) []
  two ← register_command slot (some ping_req_command) one
  register_command slot (some ack_command) two

-- `for (const auto &request : requests)`; a request with no command is passed over.
unfoldable pub run_requests : Env → Commands → List RespRequest → Exec GossipNet (Unit {0})
run_requests env commands [] = Exec.pure tt
run_requests env commands (request ∷ requests) =
    Exec.◌>>◌
      (elim (find request.name commands) [ none ↦ Exec.pure tt | some c ↦ run env c request.args ])
      (run_requests env commands requests)

-- `_handle`: an `Error` of the parser is caught, and so is one of a request.
abbrev handle_parsed :
    Env → Commands → Outcome (List RespRequest × ℕ) → GossipNet → Outcome (Unit {0}) × GossipNet
handle_parsed env commands (ok (requests, _)) net = run_requests env commands requests net
handle_parsed env commands (throws e) net = (ok tt, net)
handle_parsed env commands (fault x) net = (fault x, net)

abbrev caught_again : Outcome (Unit {0}) × GossipNet → Outcome (Unit {0}) × GossipNet
caught_again (throws e, net) = (ok tt, net)
caught_again (ok u, net) = (ok u, net)
caught_again (fault x, net) = (fault x, net)

unfoldable pub handle : Env → Commands → Bytes → Exec GossipNet (Unit {0})
unfolding run_requests
handle env commands buffer net = caught_again (handle_parsed env commands (parse buffer) net)

-- `_on_read`: an error of the socket, nothing read, or `nread` bytes at the front of the buffer.
unfoldable pub on_read : Env → Commands → ℤ → Bytes → Exec GossipNet (Unit {0})
unfolding handle
on_read env commands (negsuc n) buffer net = (ok tt, net)
on_read env commands (pos n) buffer net =
    if n == 0 then (ok tt, net) else handle env commands (take n buffer) net

-- `_on_event`: the waiting events, in the order in which they are handed to the socket.
unfoldable pub on_event : GossipNet → GossipNet × List Event
on_event net = (record net { events = [] }, net.events)
