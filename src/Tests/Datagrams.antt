-- ===== src/Tests/Datagrams.antt =====
-- The sending of events through a libuv that keeps a record of the datagrams.
use gossip_net.Prelude.{◌≡◌, refl, true, List, [], ◌∷◌, ◌++◌, Bytes, codes, ◌==◌, if◌then◌else◌}
use gossip_net.Outcome.{fault, uncaught}
use gossip_net.Decimal.Int.{ℤ, pos, negsuc}
use gossip_net.Net.{Event}
use gossip_net.Uv.{Libuv, Machine, sock_addr, require, is_ipv6}
use gossip_net.Socket.{UdpServer, on_event_thread}
use gossip_net.Socket.Handed.{IsLog, on_event-log}

abbrev Datagrams : Type 0
Datagrams = List (Bytes × Bytes)

-- An address of which the first byte is no digit is refused.
abbrev read_address : Bytes → ℤ × Bytes
read_address [] = (negsuc 21, [])
read_address (c ∷ ip) = (if c == b'1' then pos 0 else negsuc 21, c ∷ ip)

abbrev keeping : Libuv Datagrams
keeping = record {
  err_name = λ e. codes "E";
  strerror = λ e. codes "error";
  ip4_addr = λ ip port. read_address ip;
  ip6_addr = λ ip port. read_address ip;
  loop_init = λ w. (pos 0, w);
  loop_close = λ w. (pos 0, w);
  walked = λ w. [];
  close = λ h w. w;
  run = λ w. w;
  async_init = λ h c w. (pos 0, w);
  async_send = λ h w. w;
  timer_init = λ h w. (pos 0, w);
  timer_start = λ h c t r w. (pos 0, w);
  tcp_init = λ h w. w;
  tcp_init_ex = λ h six w. w;
  fileno = λ h w. (pos 0, pos 3);
  set_reuseport = λ fd w. (pos 0, w);
  tcp_nodelay = λ h w. (pos 0, w);
  tcp_bind = λ h a w. (pos 0, w);
  listen = λ h n c w. (pos 0, w);
  udp_init = λ h w. (pos 0, w);
  udp_bind = λ h a w. (pos 0, w);
  udp_recv_start = λ h w. w;
  udp_send = λ req h content a w. (negsuc 4, w ++ (a, content) ∷ []);
}

keeping-IsLog : IsLog keeping (λ w. w)
keeping-IsLog = record { sends = λ req h content a w. refl }

abbrev first_event : Event
first_event = record { ip = codes "10.0.0.1"; port = pos 7000; content = codes "+" }

abbrev second_event : Event
second_event = record first_event { content = codes "-" }

abbrev lost_event : Event
lost_event = record first_event { ip = codes "nowhere" }

abbrev idle : Machine Datagrams
idle = record { world = []; has_loop = true; live = 8 ∷ 7 ∷ []; next = 9; links = [] }

abbrev server : UdpServer
server = record { server = 7; async = 8; buffer_size = 1024 }

-- The third address cannot be read, and the fourth event is lost.
on_event-log_example :
    ((on_event_thread keeping server
        (first_event ∷ second_event ∷ lost_event ∷ first_event ∷ [])
        idle).1.world
      ≡ [] ++ (codes "10.0.0.1", codes "+") ∷ (codes "10.0.0.1", codes "-") ∷ [])
    × ((on_event_thread keeping server
          (first_event ∷ second_event ∷ lost_event ∷ first_event ∷ [])
          idle).0
        ≡ fault uncaught)
unfolding sock_addr require is_ipv6
on_event-log_example =
    on_event-log keeping server (λ w. w) keeping-IsLog
      (first_event ∷ second_event ∷ lost_event ∷ first_event ∷ []) idle
