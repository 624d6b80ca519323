-- ===== src/Server/Heard.antt =====
-- The way of a command through the program: the datagram, the parser, the arguments, the two sets, and
-- what the command then does.
use gossip_net.Prelude.{◌≡◌, refl, ◌∙◌, some, List, [], ◌∷◌, ◌++◌, map, Bytes, All, All-snoc}
use gossip_net.Outcome.{ok}
use gossip_net.Exec.{Exec, ◌>>◌}
use gossip_net.Node.{Node}
use gossip_net.Node.Order.{IsKnown}
use gossip_net.Table.{find}
use gossip_net.Resp.{RespRequest}
use gossip_net.Resp.RoundTrip.{IsSmall, encode}
use gossip_net.Wire.Accepted.{IsSized, as_alive}
use gossip_net.Net.{Env, GossipNet, update}
use gossip_net.Net.Merge.{IsSound}
use gossip_net.Net.Apart.{IsApart}
use gossip_net.Command.{Command, name, caught}
use gossip_net.Command.Taken.{Updated, update_known}
use gossip_net.Command.Spoken.{spoken, answer, run-spoken}
use gossip_net.Server.{Commands, handle}
use gossip_net.Server.Handling.{handle-encode}

-- A command as a request.
abbrev pub request : Command → (Node → Bytes) → Node → Node → List Node → RespRequest
request c gap n p rs = record { name = name c; args = spoken c gap n p rs }

-- The nodes of a request: the rumors, then the sender, each as ALIVE.
abbrev pub said : Node → List Node → List Node
said n rs = map as_alive rs ++ as_alive n ∷ []

as_alive-IsKnown : (n : Node) → IsSized n → IsKnown (as_alive n)
as_alive-IsKnown n sized = record { known = refl; fits = sized.version_fits }

All-as_alive : (rs : List Node) → All IsSized rs → All IsKnown (map as_alive rs)
All-as_alive [] h = tt
All-as_alive (r ∷ rs) h = (as_alive-IsKnown r h.0, All-as_alive rs h.1)

pub said-IsKnown :
    (n : Node) (rs : List Node) → IsSized n → All IsSized rs → All IsKnown (said n rs)
said-IsKnown n rs sized all_sized =
    All-snoc IsKnown (map as_alive rs) (as_alive n) (All-as_alive rs all_sized)
      (as_alive-IsKnown n sized)

then_answers :
    (env : Env) (ns : List Node) (f : Exec GossipNet (Unit {0})) (net net' : GossipNet)
    → update env ns net ≡ (ok tt, net')
    → caught ((update env ns >> f) net) ≡ caught (f net')
then_answers env ns f net net' e = rw e refl

-- A datagram that holds one `ping`, `ping-req` or `ack` in bulk strings, from a sender, about a peer
-- for `ping-req`, and with any number of rumors, all with 32-bit ports and 64-bit versions, one
-- argument of any text between two nodes and none behind the last, within the parser's limits, is
-- taken in by a member with sound sets without a common id that has the command registered. The
-- update runs to its end, keeps the sets so, and lifts the view of each id by the rumors and the
-- sender, each as ALIVE. Then the command goes on from there: an acknowledgement to the sender, a
-- `ping` to the peer and a task for it, or the tasks that wait for the sender; the errors of that
-- are caught.
pub handle-request :
    (env : Env) (commands : Commands) (net : GossipNet) (c : Command) (gap : Node → Bytes)
    (n p : Node) (rs : List Node)
    → find (name c) commands ≡ some c
    → IsSound net
    → IsApart net
    → IsSized n
    → IsSized p
    → All IsSized rs
    → IsSmall (request c gap n p rs)
    → (net' : GossipNet) × Updated env (said n rs) net net'
      × (handle env commands (encode (request c gap n p rs)) net
          ≡ caught (answer env c (as_alive n) (as_alive p) net'))
handle-request env commands net c gap n p rs registered sound apart sized peer_sized all_sized
      small =
    let (net', updated) =
      update_known env (said n rs) net (said-IsKnown n rs sized all_sized) sound apart in
    (
      net',
      updated,
      handle-encode env commands net (request c gap n p rs) c small registered
          ∙ run-spoken env c gap n p rs net sized peer_sized all_sized
          ∙ then_answers env (said n rs) (answer env c (as_alive n) (as_alive p)) net net'
              updated.runs,
    )
