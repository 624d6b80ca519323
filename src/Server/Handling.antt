-- ===== src/Server/Handling.antt =====
-- What a datagram does to the member that receives it.
use gossip_net.Prelude.{
  ◌^◌, ◌<◌, ◌≡◌, refl, ◌∙◌, false, some, none, List, [], ◌++◌, arith, Bytes, same, length,
  if◌then◌else◌,
}
use mathlib.Core.Path.{subst}
use gossip_net.Outcome.{Outcome, ok, throws, fault, Error, already_registered}
use gossip_net.Exec.{◌>>◌, pure}
use gossip_net.Node.{Node}
use gossip_net.Table.{Slot, keys, find, insert_at}
use gossip_net.Table.Laws.{find-insert_at}
use gossip_net.Resp.{RespRequest, parse}
use gossip_net.Resp.RoundTrip.{IsSmall, encode, encode-head, parse-encode}
use gossip_net.Resp.Extra.{parse-encode-append}
use gossip_net.Net.{Env, GossipNet, message}
use gossip_net.Net.Messages.{parse-message}
use gossip_net.Command.{
  Command, ping_command, ping_req_command, ack_command, name, run, run_body, caught,
}
use gossip_net.Server.{Commands, register_command, register_all, handle, caught_again}

module _ (slot : Slot) (c : Command) (commands : Commands) where
  register_free :
      find (name c) commands ≡ none
      → (commands' : Commands) × (register_command slot (some c) commands ≡ ok commands')
        × ((j : Bytes) → find j commands' ≡ (if same (name c) j then some c else find j commands))
  unfolding register_command
  register_free e =
      let i = slot (keys commands) (name c) in
      (
        insert_at i (name c, c) commands,
        rw (e, register_command) refl,
        λ j. find-insert_at i (name c) j c commands e,
      )

  register_taken :
      (d : Command)
      → find (name c) commands ≡ some d
      → register_command slot (some c) commands ≡ throws already_registered
  unfolding register_command
  register_taken d e = rw (e, register_command) refl

names_apart :
    (same (name ping_command) (name ping_req_command) ≡ false)
    × (same (name ping_command) (name ack_command) ≡ false)
    × (same (name ping_req_command) (name ack_command) ≡ false)
unfolding same name
names_apart = (refl, refl, refl)

registered :
    (d : Command) (a b c : Commands)
    → ((j : Bytes) → find j a ≡ (if same (name ping_command) j then some ping_command else none))
    → ((j : Bytes)
        → find j b ≡ (if same (name ping_req_command) j then some ping_req_command else find j a))
    → ((j : Bytes) → find j c ≡ (if same (name ack_command) j then some ack_command else find j b))
    → find (name d) c ≡ some d
unfolding same name
registered ping_command a b c fa fb fc =
    fc (name ping_command) ∙ fb (name ping_command) ∙ fa (name ping_command)
registered ping_req_command a b c fa fb fc = fc (name ping_req_command) ∙ fb (name ping_req_command)
registered ack_command a b c fa fb fc = fc (name ack_command)

-- The constructor registers its three commands, each under its own name, wherever the hash table
-- puts them.
pub register_all-find :
    (slot : Slot)
    → (commands : Commands) × (register_all slot ≡ ok commands)
      × ((c : Command) → find (name c) commands ≡ some c)
unfolding register_all find
register_all-find slot =
    let (a, ea, fa) = register_free slot ping_command [] refl in
    let (pr, pa, ra) = names_apart in
    let (b, eb, fb) =
      register_free slot ping_req_command a (fa (name ping_req_command) ∙ rw pr refl) in
    let free : find (name ack_command) b ≡ none =
      fb (name ack_command) ∙ rw (ra, fa (name ack_command), pa) refl in
    let (c, ec, fc) = register_free slot ack_command b free in
    (c, rw (ea, eb) ec, λ d. registered d a b c fa fb fc)

pub registered_all :
    (slot : Slot) (commands : Commands) (c : Command)
    → register_all slot ≡ ok commands
    → find (name c) commands ≡ some c
registered_all slot commands c e =
    let (made, e', found) = register_all-find slot in
    let q : made ≡ commands = cc in subst (λ cs. find (name c) cs ≡ some c) q (found c)

caught_twice :
    (r : Outcome (Unit {0}) × GossipNet)
    → caught_again (((λ n. caught r) >> pure tt) r.1) ≡ caught r
caught_twice (ok u, net) = refl
caught_twice (throws e, net) = refl
caught_twice (fault x, net) = refl

pub handle_refused :
    (env : Env) (commands : Commands) (buffer : Bytes) (net : GossipNet) (e : Error)
    → parse buffer ≡ throws e
    → handle env commands buffer net ≡ (ok tt, net)
unfolding handle
handle_refused env commands buffer net e h = rw h refl

-- A message as `ack` and `ping` build it, under whatever name and with fewer than 2 ^ 60 rumors,
-- changes nothing at the member that receives it.
pub handle-message :
    (env : Env) (commands : Commands) (net : GossipNet) (name : Bytes) (self : Node)
    (rumors : List Node) (msg : Bytes)
    → length rumors < 2 ^ 60
    → message name self rumors ≡ ok msg
    → handle env commands msg net ≡ (ok tt, net)
handle-message env commands net name self rumors msg few e =
    handle_refused env commands msg net _ (parse-message name self rumors msg few e)

-- Two requests in one datagram, the first within the parser's limits, have no effect at all, not
-- even the first.
pub handle-pipelined :
    (env : Env) (commands : Commands) (net : GossipNet) (first second : RespRequest)
    → IsSmall first
    → handle env commands (encode first ++ encode second) net ≡ (ok tt, net)
handle-pipelined env commands net first second small =
    let (rest, e) = encode-head second in
    rw e (
      handle_refused env commands _ net _
        (parse-encode-append first b'*' rest small (λ z. absurd (omega arith))))

-- A request in bulk strings that stands alone in a datagram and is within the parser's limits does
-- what its command does, if one is registered under its name.
pub handle-encode :
    (env : Env) (commands : Commands) (net : GossipNet) (req : RespRequest) (c : Command)
    → IsSmall req
    → find req.name commands ≡ some c
    → handle env commands (encode req) net ≡ run env c req.args net
unfolding handle run
handle-encode env commands net req c small e =
    rw (parse-encode req small, e) (caught_twice (run_body env c req.args net))
