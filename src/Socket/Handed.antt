-- ===== src/Socket/Handed.antt =====
-- What `_on_event` of udp_server.cpp hands over to libuv, and in which order.
use gossip_net.Prelude.{
  ℕ, suc, ◌≡◌, refl, sym, ap, ◌∙◌, inl, inr, List, [], ◌∷◌, ◌++◌, append_assoc, append-nil, Bytes,
  Bool-cases, if◌then◌else◌,
}
use gossip_net.Outcome.{Outcome, ok, throws, fault, uncaught}
use gossip_net.Outcome.Ends.{Survives-cases}
use gossip_net.Net.{Event}
use gossip_net.Uv.{Libuv, Machine, is_zero, SockAddr, sock_addr, addr, without}
use gossip_net.Uv.Unwind.{sock_addr-Survives}
use gossip_net.Socket.{UdpServer, send_event, send_all, unhandled, on_event_thread}
use gossip_net.Socket.Send.{sent, taken, returned, send_taken, all_readable, on_event-readable}

-- A record of the datagrams that libuv was given, each with its address.
pub record IsLog {W : Type 0} (uv : Libuv W) (log : W → List (Bytes × Bytes)) : Type 0 where
  pub sends :
      (req server : ℕ) (content address : Bytes) (w : W)
      → log (uv.udp_send req server content address w).1 ≡ log w ++ (address, content) ∷ []

module _ {W : Type 0} (uv : Libuv W) (s : UdpServer) where
  -- The datagrams of the events, as far as to the first whose address cannot be read.
  abbrev handed_one : Event → Outcome SockAddr → List (Bytes × Bytes) → List (Bytes × Bytes)
  handed_one event (ok a) rest = (addr a, event.content) ∷ rest
  handed_one event (throws e) rest = []
  handed_one event (fault x) rest = []

  abbrev pub handed : List Event → List (Bytes × Bytes)
  handed [] = []
  handed (event ∷ events) = handed_one event (sock_addr uv event.ip event.port) (handed events)

  send_world :
      (event : Event) (m : Machine W) (a : SockAddr)
      → sock_addr uv event.ip event.port ≡ ok a
      → (m' : Machine W) × (send_event uv s event m ≡ (ok tt, m'))
        × (m'.world ≡ (sent uv s event a m).1)
  send_world event m a h = elim (Bool-cases (is_zero (sent uv s event a m).0)) [
    | inl z ↦ (taken uv s event a m, send_taken uv s event a m h z, refl)
    | inr z ↦ (
      record (returned uv s event a m) {
        live = without m.next (without (suc m.next) (suc m.next ∷ m.next ∷ m.live));
      },
      unfold send_event in rw (h, z) refl,
      refl,
    )
  ]

  module _ (log : W → List (Bytes × Bytes)) (is_log : IsLog uv log) where
    send_all-log :
        (events : List Event) (m : Machine W)
        → log (send_all uv s events m).1.world ≡ log m.world ++ handed events
    unfolding send_all
    send_all-log [] m = sym (append-nil (log m.world))
    send_all-log (event ∷ events) m =
        elim (Survives-cases (sock_addr uv event.ip event.port)
          (sock_addr-Survives uv event.ip event.port)) [
            | inr (e, h) ↦
                let q : send_event uv s event m ≡ (throws e, m) = unfold send_event in rw h refl in
                rw (q, h) (sym (append-nil (log m.world)))
            | inl (a, h) ↦
                let (m', q, w) = send_world event m a h in
                rw (q, h)
                  (send_all-log events m'
                    ∙ ap (λ l. l ++ handed events)
                        (ap log w ∙ is_log.sends m.next s.server event.content (addr a) m.world)
                    ∙ append_assoc (log m.world) ((addr a, event.content) ∷ []) (handed events))
          ]

    unhandled_world : (r : Outcome (Unit {0}) × Machine W) → (unhandled uv r).1.world ≡ r.1.world
    unhandled_world (ok u, m) = refl
    unhandled_world (throws e, m) = refl
    unhandled_world (fault x, m) = refl

    -- `_on_event` hands each of its events over once and in their order, to the address that was read
    -- from it, whatever codes libuv answers with. If all the addresses can be read, it returns; else it
    -- hands over those before the first that cannot, and ends the program by an exception that is
    -- caught nowhere. `log` is any record of the datagrams that libuv was given.
    pub on_event-log :
        (events : List Event) (m : Machine W)
        → (log (on_event_thread uv s events m).1.world ≡ log m.world ++ handed events)
          × ((on_event_thread uv s events m).0
              ≡ (if all_readable uv s events then ok tt else fault uncaught))
    on_event-log events m = (
      unfold on_event_thread in
          (ap log (unhandled_world (send_all uv s events m)) ∙ send_all-log events m),
      on_event-readable uv s events m,
    )
