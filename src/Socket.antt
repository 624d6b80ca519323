-- ===== src/Socket.antt =====
-- udp_server.h and udp_server.cpp, towards libuv: the construction of the server, its destruction, and
-- the sending of the waiting events.
pub mod Setup
pub mod Open
pub mod Built
pub mod Ended
pub mod Send
pub mod Answer
pub mod Handed
pub mod Deleted
use gossip_net.Prelude.{
  ℕ, Bool, true, false, Option, none, some, List, [], ◌∷◌, ◌++◌, Bytes, length, take, ◌==◌, ◌&&◌,
  not, if◌then◌else◌,
}
use gossip_net.Outcome.{Outcome, ok, throws, fault, use_after_free, uncaught, assert_failed}
use gossip_net.Exec.{Exec, continue, ◌>>=◌, ◌>>◌, pure, lift}
use gossip_net.Decimal.Int.{ℤ, pos, negsuc}
use gossip_net.Net.{Event, GossipNet}
use gossip_net.Uv.{
  Libuv, Machine, is_zero, sock_addr, addr, call, call_void, is_live, link_of, new, free, set_data,
  unwinding, handle_close,
}
use gossip_net.Uv.Make.{UdpOptions, make_loop, make_async, make_udp_server, delete_loop}

pub record UdpServerOptions : Type 0 where
  pub ip : Bytes
  pub port : ℤ
  pub buffer_size : ℕ

-- The handles `_server` and `_async`.
pub record UdpServer : Type 0 where
  pub server : ℕ
  pub async : ℕ
  pub buffer_size : ℕ

module _ {W : Type 0} (uv : Libuv W) where
  -- The two handles; the first is freed where the second fails.
  unfoldable pub make_members : ℕ → ℕ → UdpServerOptions → Exec (Machine W) UdpServer
  make_members on_event self opts = do
    server ← make_udp_server uv (record { ip = opts.ip; port = opts.port }) (some self)
    async ← unwinding (free server) (make_async uv on_event (some self))
    pure (record { server = server; async = async; buffer_size = opts.buffer_size })

  -- The constructor of the object at an address, given that of `_on_event`. Where it throws, the
  -- members that stand are destroyed, the loop last.
  unfoldable pub construct : ℕ → ℕ → UdpServerOptions → Exec (Machine W) UdpServer
  unfolding make_members
  construct on_event self opts = do
    make_loop uv
    unwinding (delete_loop uv) (make_members on_event self opts)

  -- The destructor: the members in reverse order.
  unfoldable pub destroy : UdpServer → Exec (Machine W) (Unit {0})
  destroy s = do free s.async; free s.server; delete_loop uv

  -- `start`: the code of `uv_udp_recv_start` is not looked at.
  unfoldable pub start_loop : UdpServer → Exec (Machine W) (Unit {0})
  start_loop s = do call_void (uv.udp_recv_start s.server); call_void uv.run

  -- `_on_alloc`: how many bytes libuv may write.
  abbrev pub on_alloc : UdpServer → ℕ
  on_alloc s = s.buffer_size

  -- What `_on_read` does to the socket: an error closes it.
  unfoldable pub read_socket : UdpServer → ℤ → Exec (Machine W) (Unit {0})
  read_socket s (negsuc n) = handle_close uv s.server
  read_socket s (pos n) = pure tt

  -- `send`, behind the push of the event.
  unfoldable pub wake : UdpServer → Exec (Machine W) (Unit {0})
  wake s = call_void (uv.async_send s.async)

  -- `_send`: where libuv refuses the request, it and its context are freed, and otherwise they are
  -- given away, the context as the request's data.
  unfoldable pub send_event : UdpServer → Event → Exec (Machine W) (Unit {0})
  send_event s event = do
    a ← lift (sock_addr uv event.ip event.port)
    req ← new
    ctx ← new
    err ← call (uv.udp_send req s.server event.content (addr a))
    (if is_zero err then set_data req (some ctx) else free ctx >> free req)

  -- `delete`, of null too.
  abbrev delete_context : Option ℕ → Exec (Machine W) (Unit {0})
  delete_context none = pure tt
  delete_context (some ctx) = free ctx

  -- `_on_send`, whatever the status.
  unfoldable pub on_send : ℕ → Exec (Machine W) (Unit {0})
  on_send req m =
      if is_live req m.live
      then (delete_context (link_of req m.links) >> free req) m
      else (fault use_after_free, m)

  -- The loop of `_on_event`.
  unfoldable pub send_all : UdpServer → List Event → Exec (Machine W) (Unit {0})
  unfolding send_event
  send_all s [] = pure tt
  send_all s (event ∷ events) = send_event s event >> send_all s events

  abbrev pub unhandled : Outcome (Unit {0}) × Machine W → Outcome (Unit {0}) × Machine W
  unhandled (ok u, m) = (ok u, m)
  unhandled (throws e, m) = (fault uncaught, m)
  unhandled (fault x, m) = (fault x, m)

  -- Neither `_on_event`, which libuv calls, nor the function of the server's thread catches an `Error`.
  unfoldable pub on_event_thread : UdpServer → List Event → Exec (Machine W) (Unit {0})
  unfolding send_all
  on_event_thread s events m = unhandled (send_all s events m)

  -- The destructor of `GossipNet`, by whether the thread of the server has come to its end: it waits for
  -- that thread, for ever where it does not, and then the server is destroyed.
  unfoldable pub delete_net :
      Bool → GossipNet → UdpServer → Machine W → Option (Outcome (Unit {0}) × Machine W)
  delete_net ended net s m = if net.running && not ended then none else some (destroy s m)
