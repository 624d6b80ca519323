-- ===== src/Tests/Sockets.antt =====
-- A small libuv, whose loop is the list of its handles, and the server on it.
use gossip_net.Prelude.{
  ℕ, ◌≡◌, ◌⊎◌, refl, inr, true, false, some, none, List, [], ◌∷◌, Bytes, arith, codes, ◌==◌,
  if◌then◌else◌,
}
use gossip_net.Outcome.{ok, throws, fault, use_after_free, uncaught, uv_error}
use gossip_net.Exec.Triples.{Post}
use gossip_net.Decimal.Int.{ℤ, pos, negsuc}
use gossip_net.Node.{Node}
use gossip_net.Recent
use gossip_net.Members
use gossip_net.Net.{
  Event, ack, ack_as, send_message, gather_rumors, build_rumors, fetch_recent, add_members,
  fill_rumors, message, append_node, append_rumors, send,
}
use gossip_net.Uv.{Libuv, Machine, is_zero, is_live, without, sock_addr, require, is_ipv6}
use gossip_net.Uv.Make.{
  make_async, make_timer, make_udp_server, make_tcp_server, TcpOptions, UdpOptions,
}
use gossip_net.Uv.Lawful.{IsLibuv}
use gossip_net.Uv.Unwind.{Made, Unwound, IsFresh}
use gossip_net.Uv.Made.{make-Made}
use gossip_net.Server.{on_event}
use gossip_net.Socket.{UdpServerOptions, UdpServer, construct, on_event_thread}
use gossip_net.Socket.Open.{Stands, Accepts, Refused}
use gossip_net.Socket.Built.{construct-Stands}
use gossip_net.Socket.Ended.{construct-Refused}
use gossip_net.Socket.Send.{Balanced, send_event-Balanced}
use gossip_net.Socket.Answer.{ack-uncaught}
use gossip_net.Tests.{alice, env, busy}

abbrev World : Type 0
World = List ℕ

-- An address of which the first byte is no digit is refused.
abbrev read_address : Bytes → ℤ × Bytes
read_address [] = (negsuc 21, [])
read_address (c ∷ ip) = (if c == b'1' then pos 0 else negsuc 21, c ∷ ip)

abbrev close_code : World → ℤ
close_code [] = pos 0
close_code (h ∷ hs) = negsuc 15

abbrev uv_with : ℤ → ℤ → Libuv World
uv_with udp_init bind = record {
  err_name = λ e. codes "E";
  strerror = λ e. codes "error";
  ip4_addr = λ ip port. read_address ip;
  ip6_addr = λ ip port. read_address ip;
  loop_init = λ w. (pos 0, []);
  loop_close = λ w. (close_code w, w);
  walked = λ w. w;
  close = λ h w. without h w;
  run = λ w. w;
  async_init = λ h c w. (pos 0, h ∷ w);
  async_send = λ h w. w;
  timer_init = λ h w. (pos 0, h ∷ w);
  timer_start = λ h c t r w. (pos 0, w);
  tcp_init = λ h w. h ∷ w;
  tcp_init_ex = λ h six w. h ∷ w;
  fileno = λ h w. (pos 0, pos 3);
  set_reuseport = λ fd w. (pos 0, w);
  tcp_nodelay = λ h w. (pos 0, w);
  tcp_bind = λ h a w. (pos 0, w);
  listen = λ h n c w. (pos 0, w);
  udp_init = λ h w. (udp_init, if is_zero udp_init then h ∷ w else w);
  udp_bind = λ h a w. (bind, w);
  udp_recv_start = λ h w. w;
  udp_send = λ req h content a w. (pos 0, w);
}

abbrev uv : Libuv World
uv = uv_with (pos 0) (pos 0)

-- There every UDP handle is refused.
abbrev poor_uv : Libuv World
poor_uv = uv_with (negsuc 11) (pos 0)

close_code_busy :
    (w : World) (h : ℕ) → is_live h w ≡ true → (is_zero (close_code w) ≡ false) × (w ≡ w)
close_code_busy [] h e = cc
close_code_busy (x ∷ w) h e = (refl, refl)

close_code_ok : (w : World) → w ≡ [] → is_zero (close_code w) ≡ true
close_code_ok w e = rw e refl

uv-IsLibuv : IsLibuv uv
uv-IsLibuv = record {
  loop_init_ok = λ w e. refl;
  udp_init_ok = λ h w e. refl;
  udp_init_fails = λ h w e. cc;
  udp_bind_keeps = λ h a w. refl;
  async_init_ok = λ h c w e. refl;
  async_init_fails = λ h c w e. cc;
  loop_close_ok = close_code_ok;
  loop_close_busy = close_code_busy;
}

poor_uv-IsLibuv : IsLibuv poor_uv
poor_uv-IsLibuv = record {
  loop_init_ok = λ w e. refl;
  udp_init_ok = λ h w e. cc;
  udp_init_fails = λ h w e. refl;
  udp_bind_keeps = λ h a w. refl;
  async_init_ok = λ h c w e. refl;
  async_init_fails = λ h c w e. cc;
  loop_close_ok = close_code_ok;
  loop_close_busy = close_code_busy;
}

-- Two blocks are in use.
abbrev machine : Machine World
machine = record {
  world = [];
  has_loop = false;
  live = 4 ∷ 2 ∷ [];
  next = 7;
  links = (4, none) ∷ [];
}

machine-IsFresh : IsFresh machine
machine-IsFresh = record { live = (omega arith, (omega arith, tt)); links = (omega arith, tt) }

abbrev opts : UdpServerOptions
opts = record { ip = codes "10.0.0.1"; port = pos 7000; buffer_size = 1024 }

abbrev udp : UdpOptions
udp = record { ip = codes "nowhere"; port = pos 7000 }

abbrev tcp : TcpOptions
tcp = record {
  ip = codes "1::2";
  port = pos 7000;
  backlog = pos 5;
  keepalive = pos 60;
  nodelay = true;
}

make-Made_example :
    Post (Made (some 4) machine) (Unwound machine) (make_async uv 90 (some 4) machine)
    × Post
        (Made (some 4) machine)
        (Unwound machine)
        (make_timer uv 90 (pos 10) (negsuc 0) (some 4) machine)
    × Post (Made (some 4) machine) (Unwound machine) (make_udp_server uv udp (some 4) machine)
    × Post (Made (some 4) machine) (Unwound machine) (make_tcp_server uv tcp 90 (some 4) machine)
make-Made_example = make-Made (some 4) machine machine-IsFresh uv 90 (pos 10) (negsuc 0) udp tcp

construct-Stands_example :
    (Accepts uv 90 4 opts machine
      × (s : UdpServer) × (m : Machine World) × (construct uv 90 4 opts machine ≡ (ok s, m))
      × Stands uv 4 s m)
    ⊎ ((Accepts uv 90 4 opts machine → ⊥)
        × ((construct uv 90 4 opts machine).0 ≡ fault use_after_free))
construct-Stands_example =
    construct-Stands uv uv-IsLibuv 90 4 opts machine machine-IsFresh refl refl

construct-Refused_example : Refused poor_uv 90 4 opts machine
construct-Refused_example =
    construct-Refused poor_uv poor_uv-IsLibuv 90 4 opts machine machine-IsFresh refl (inr refl)

-- The server in it.
abbrev server : UdpServer
server = record { server = 7; async = 8; buffer_size = 1024 }

abbrev built : Machine World
built = record {
  world = 8 ∷ 7 ∷ [];
  has_loop = true;
  live = 8 ∷ 7 ∷ 4 ∷ 2 ∷ [];
  next = 9;
  links = (8, some 4) ∷ (7, some 4) ∷ (4, none) ∷ [];
}

-- Later: the socket was closed after an error, and a request is with libuv.
abbrev spent : Machine World
spent = record built { world = 8 ∷ []; live = 10 ∷ 9 ∷ 8 ∷ 7 ∷ 4 ∷ 2 ∷ []; next = 11 }

abbrev event : Event
event = record { ip = codes "10.0.0.1"; port = pos 7000; content = codes "+" }

abbrev lost_event : Event
lost_event = record event { ip = codes "nowhere" }

built-IsFresh : IsFresh built
built-IsFresh = record {
  live = (omega arith, (omega arith, (omega arith, (omega arith, tt))));
  links = (omega arith, (omega arith, (omega arith, tt)));
}

send_event-Balanced_example : Balanced uv server event built
send_event-Balanced_example = send_event-Balanced uv server event built built-IsFresh

abbrev lost : Node
lost = record alice { ip = codes "nowhere" }

lost_unreadable :
    sock_addr uv lost.ip lost.port ≡ throws (uv_error (codes "E: error, invalid ipv4 address"))
unfolding sock_addr require is_ipv6
lost_unreadable = refl

ack_written : (ack env lost busy).0 ≡ ok tt
unfolding ack ack_as send_message build_rumors gather_rumors fetch_recent add_members fill_rumors
    message append_node append_rumors send Recent.fetch Recent.fetch_all Recent.drain Recent.spread
    Members.fetch
ack_written = refl

ack-uncaught_example :
    (on_event_thread uv server (on_event (ack env lost busy).1).1 built).0 ≡ fault uncaught
ack-uncaught_example = ack-uncaught uv server env busy lost built _ lost_unreadable ack_written
