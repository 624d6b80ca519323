-- ===== src/Command/Taken.antt =====
-- The nodes that the arguments of a command give, and the `update` with them.
use gossip_net.Prelude.{◌≡◌, List, [], ◌∷◌, ◌++◌, Bytes, codes, length, All, All-snoc}
use gossip_net.Outcome.{ok}
use gossip_net.Outcome.Ends.{Ends, Ends-bind, Ends-map}
use gossip_net.Node.{Node}
use gossip_net.Node.Order.{IsKnown}
use gossip_net.Wire.{parse_node, parse_rumors}
use gossip_net.Wire.Known.{IsRead, All-IsKnown, Takes, parse_node-Ends, parse_rumors-Ends}
use gossip_net.Net.{Env, GossipNet, update}
use gossip_net.Net.Merge.{IsSound, view, all_heard}
use gossip_net.Net.Converge.{update-view}
use gossip_net.Net.Apart.{IsApart, update-IsApart}
use gossip_net.Command.{Args, PingReqArgs, parse_args, parse_req_args}

-- The nodes that a command updates with: the rumors, then the sender.
abbrev pub nodes_of : Args → List Node
nodes_of a = a.rumors ++ a.self ∷ []

abbrev pub req_nodes_of : PingReqArgs → List Node
req_nodes_of a = a.rumors ++ a.self ∷ []

pub parse_args-Ends : (args : List Bytes) → Ends (λ a. All IsRead (nodes_of a)) (parse_args args)
unfolding parse_args
parse_args-Ends args =
    Ends-bind (Takes (length args)) _ (parse_node (codes "self") args) _
      (parse_node-Ends (codes "self") args)
      λ s k.
        Ends-bind (All IsRead) _ (parse_rumors s.1) _ (parse_rumors-Ends s.1)
          λ rumors ks. All-snoc IsRead rumors s.0 ks k.0

pub parse_req_args-Ends :
    (args : List Bytes) → Ends (λ a. All IsRead (req_nodes_of a)) (parse_req_args args)
unfolding parse_req_args
parse_req_args-Ends args =
    Ends-bind (Takes (length args)) _ (parse_node (codes "self") args) _
      (parse_node-Ends (codes "self") args)
      λ s k.
        Ends-bind (Takes (length s.1)) _ (parse_node (codes "peer") s.1) _
          (parse_node-Ends (codes "peer") s.1)
          λ p _.
            Ends-bind (All IsRead) _ (parse_rumors p.1) _ (parse_rumors-Ends p.1)
              λ rumors ks. All-snoc IsRead rumors s.0 ks k.0

-- What an `update` that runs to its end leads to.
pub record Updated (env : Env) (ns : List Node) (net net' : GossipNet) : Type 0 where
  pub runs : update env ns net ≡ (ok tt, net')
  pub sound : IsSound net'
  pub apart : IsApart net'
  pub views : (id : Bytes) → view net' id ≡ all_heard id ns (view net id)

pub update_known :
    (env : Env) (ns : List Node) (net : GossipNet)
    → All IsKnown ns
    → IsSound net
    → IsApart net
    → (net' : GossipNet) × Updated env ns net net'
update_known env ns net known sound apart =
    let (net', e, sound', views) = update-view env ns net sound known in
    (
      net',
      record {
        runs = e;
        sound = sound';
        apart = rw e at (update-IsApart env ns net sound apart known);
        views = views;
      },
    )

-- Whatever the arguments of a `ping`, a `ping-req` or an `ack`: the loop over the rumors ends, and
-- if the arguments are read, the update of two sound sets without a common id by the rumors and
-- the sender runs to its end, keeps them so, and lifts the views by those nodes.
pub update_parsed :
    (env : Env) (args : List Bytes) (net : GossipNet)
    → IsSound net
    → IsApart net
    → Ends (λ a. (net' : GossipNet) × Updated env (nodes_of a) net net') (parse_args args)
      × Ends (λ a. (net' : GossipNet) × Updated env (req_nodes_of a) net net') (parse_req_args args)
update_parsed env args net sound apart = (
  Ends-map _ _ (parse_args args) (parse_args-Ends args)
      (λ a read. update_known env (nodes_of a) net (All-IsKnown _ read) sound apart),
  Ends-map _ _ (parse_req_args args) (parse_req_args-Ends args)
      (λ a read. update_known env (req_nodes_of a) net (All-IsKnown _ read) sound apart),
)
