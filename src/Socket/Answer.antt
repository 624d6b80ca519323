-- ===== src/Socket/Answer.antt =====
-- An acknowledgement on its way to the socket: `ack`, the waiting events, `_on_event`.
use gossip_net.Prelude.{◌≡◌, refl, false, List, [], ◌∷◌, ◌++◌, arith, Bytes, codes}
use gossip_net.Outcome.{Outcome, ok, throws, fault, uncaught, Error}
use gossip_net.Exec.{continue, ◌>>=◌, lift}
use gossip_net.Node.{Node}
use gossip_net.Net.{Env, Event, GossipNet, send, build_rumors, message, send_message, ack_as, ack}
use gossip_net.Uv.{Libuv, Machine, sock_addr}
use gossip_net.Server.{on_event}
use gossip_net.Socket.{UdpServer, on_event_thread}
use gossip_net.Socket.Send.{readable, all_readable, on_event-readable}

-- The event of a message to a node waits last.
abbrev Posts : Node → Outcome (Unit {0}) × GossipNet → Type 0
Posts dest r =
    (events : List Event) × (content : Bytes) × (r.1.events
      ≡ events ++ record { ip = dest.ip; port = dest.port; content = content } ∷ [])

module _ (dest : Node) where
  post_text :
      (text : Outcome Bytes) (net : GossipNet)
      → (continue text (λ content. send dest.ip dest.port content) net).0 ≡ ok tt
      → Posts dest (continue text (λ content. send dest.ip dest.port content) net)
  unfolding send
  post_text (ok content) net h = (net.events, content, refl)
  post_text (throws e) net h = cc
  post_text (fault x) net h = cc

  post_rumors :
      (name : Bytes) (self : Node) (r : Outcome (List Node)) (net : GossipNet)
      → (continue r
          (λ rumors. lift (message name self rumors) >>= λ content. send dest.ip dest.port content)
          net).0
        ≡ ok tt
      → Posts dest (
          continue r
            (λ rumors.
              lift (message name self rumors) >>= λ content. send dest.ip dest.port content)
            net)
  post_rumors name self (ok rumors) net h = post_text (message name self rumors) net h
  post_rumors name self (throws e) net h = cc
  post_rumors name self (fault x) net h = cc

  send_message-Posts :
      (env : Env) (name : Bytes) (self : Node) (net : GossipNet)
      → (send_message env name dest self net).0 ≡ ok tt
      → Posts dest (send_message env name dest self net)
  unfolding send_message
  send_message-Posts env name self net h =
      post_rumors name self (build_rumors env net).0 (build_rumors env net).1 h

module _ {W : Type 0} (uv : Libuv W) (s : UdpServer) where
  all_readable-last :
      (events : List Event) (event : Event)
      → readable uv s event ≡ false
      → all_readable uv s (events ++ event ∷ []) ≡ false
  all_readable-last [] event h = rw h refl
  all_readable-last (e ∷ events) event h = ground (arith, all_readable-last events event h)

  posted-uncaught :
      (dest : Node) (e : Error) (r : Outcome (Unit {0}) × GossipNet) (m : Machine W)
      → sock_addr uv dest.ip dest.port ≡ throws e
      → Posts dest r
      → (on_event_thread uv s r.1.events m).0 ≡ fault uncaught
  posted-uncaught dest e r m bad (events, content, h) =
      let event : Event = record { ip = dest.ip; port = dest.port; content = content } in
      rw (on_event-readable uv s r.1.events m, h, all_readable-last events event (rw bad refl)) refl

  -- If an `ack` to a node is written and the address of the node cannot be read, the `_on_event`
  -- that takes the waiting events ends the program.
  pub ack-uncaught :
      (env : Env) (net : GossipNet) (dest : Node) (m : Machine W) (e : Error)
      → sock_addr uv dest.ip dest.port ≡ throws e
      → (ack env dest net).0 ≡ ok tt
      → (on_event_thread uv s (on_event (ack env dest net).1).1 m).0 ≡ fault uncaught
  unfolding ack ack_as on_event
  ack-uncaught env net dest m e bad h =
      posted-uncaught dest e (send_message env (codes "ack") dest net.self net) m bad
        (send_message-Posts dest env (codes "ack") net.self net h)
