-- ===== src/Socket/Send.antt =====
-- The sending of events: the memory of the requests, and the addresses that cannot be read.
use gossip_net.Prelude.{
  suc, ◌≡◌, refl, ap, ◌∙◌, ◌⊎◌, inl, inr, Bool, true, false, ◌&&◌, some, List, [], ◌∷◌, arith,
  Bool-cases, if◌then◌else◌, All-map,
}
use gossip_net.Outcome.{Outcome, ok, throws, fault, uncaught, Error}
use gossip_net.Outcome.Ends.{Survives-cases}
use gossip_net.Decimal.Int.{ℤ}
use gossip_net.Net.{Event}
use gossip_net.Uv.{Libuv, Machine, is_zero, is_live, SockAddr, sock_addr, addr, without, link_of}
use gossip_net.Uv.Unwind.{IsFresh, without-new, sock_addr-Survives}
use gossip_net.Socket.{UdpServer, send_event, on_send, send_all, on_event_thread}

module _ {W : Type 0} (uv : Libuv W) (s : UdpServer) where
  -- The states behind a request that libuv takes, and behind one that it refuses.
  module _ (event : Event) (a : SockAddr) (m : Machine W) where
    abbrev pub sent : ℤ × W
    sent = uv.udp_send m.next s.server event.content (addr a) m.world

    abbrev pub taken : Machine W
    taken = record m {
      world = sent.1;
      live = suc m.next ∷ m.next ∷ m.live;
      next = suc (suc m.next);
      links = (m.next, some (suc m.next)) ∷ m.links;
    }

    abbrev pub returned : Machine W
    returned = record m { world = sent.1; next = suc (suc m.next) }

    pub send_taken :
        sock_addr uv event.ip event.port ≡ ok a
        → is_zero sent.0 ≡ true
        → send_event uv s event m ≡ (ok tt, taken)
    unfolding send_event
    send_taken h z = rw (h, z) refl

    free_both :
        IsFresh m → without m.next (without (suc m.next) (suc m.next ∷ m.next ∷ m.live)) ≡ m.live
    free_both fresh =
        ap (without m.next) (
          without-new (suc m.next) (m.next ∷ m.live)
            (omega arith, All-map m.live (λ x h. omega arith) fresh.live))
        ∙ without-new m.next m.live fresh.live

    send_refused :
        IsFresh m
        → sock_addr uv event.ip event.port ≡ ok a
        → is_zero sent.0 ≡ false
        → send_event uv s event m ≡ (ok tt, returned)
    unfolding send_event
    send_refused fresh h z =
        rw (h, z) (ap (λ l. (ok tt, record returned { live = l })) (free_both fresh))

    context_of : link_of m.next taken.links ≡ some (suc m.next)
    unfolding link_of
    context_of = ground arith

    still_live : is_live m.next taken.live ≡ true
    still_live = ground arith

    on_send-taken :
        IsFresh m
        → (w : W)
        → on_send uv m.next (record taken { world = w })
          ≡ (ok tt, record taken { world = w; live = m.live })
    unfolding on_send
    on_send-taken fresh w =
        rw (still_live, context_of)
          (ap (λ l. (ok tt, record taken { world = w; live = l })) (free_both fresh))

  -- What becomes of the memory of a request, by whether its address is read and by the code with which
  -- libuv answers: if the address is not read, nothing changes; if the code is not 0, all is freed; and
  -- if it is 0, the request is alive, and `_on_send` frees all.
  abbrev pub Balanced : Event → Machine W → Type 0
  Balanced event m =
      ((e : Error) × (sock_addr uv event.ip event.port ≡ throws e)
        × (send_event uv s event m ≡ (throws e, m)))
      ⊎ ((a : SockAddr) × (sock_addr uv event.ip event.port ≡ ok a)
          × (is_zero (sent event a m).0 ≡ false)
          × ((send_event uv s event m).0 ≡ ok tt)
          × ((send_event uv s event m).1.world ≡ (sent event a m).1)
          × ((send_event uv s event m).1.live ≡ m.live))
      ⊎ ((a : SockAddr) × (sock_addr uv event.ip event.port ≡ ok a)
          × (is_zero (sent event a m).0 ≡ true)
          × (m' : Machine W) × (send_event uv s event m ≡ (ok tt, m'))
          × (m'.world ≡ (sent event a m).1)
          × (is_live m.next m'.live ≡ true)
          × ((w : W)
              → ((on_send uv m.next (record m' { world = w })).0 ≡ ok tt)
                × ((on_send uv m.next (record m' { world = w })).1.live ≡ m.live)))

  -- A send throws exactly with the error of an address that cannot be read, with the memory as it was.
  -- Otherwise it returns, with the state of libuv that `uv_udp_send` leaves. If that was not answered
  -- with 0, all that the send allocated is freed; if it was, the request that libuv has taken is
  -- alive, and its `_on_send`, at whatever later state of libuv, frees all that the send allocated.
  -- Nothing stands at the next address yet.
  pub send_event-Balanced : (event : Event) (m : Machine W) → IsFresh m → Balanced event m
  send_event-Balanced event m fresh =
      elim (Survives-cases (sock_addr uv event.ip event.port)
        (sock_addr-Survives uv event.ip event.port)) [
          | inr (e, h) ↦ inl (e, h, unfold send_event in rw h refl)
          | inl (a, h) ↦ elim (Bool-cases (is_zero (sent event a m).0)) [
            | inr z ↦
                let q = send_refused event a m fresh h z in
                inr (inl (a, h, z, rw q refl, rw q refl, rw q refl))
            | inl z ↦ inr (
                inr (
                  a,
                  h,
                  z,
                  taken event a m,
                  send_taken event a m h z,
                  refl,
                  still_live event a m,
                  λ w.
                      let q = on_send-taken event a m fresh w in
                      (ap (λ r. r.0) q, ap (λ r. r.1.live) q),
                ))
          ]
        ]

  -- Whether the address of an event is one that can be read.
  abbrev is_ok : Outcome SockAddr → Bool
  is_ok (ok a) = true
  is_ok (throws e) = false
  is_ok (fault x) = false

  abbrev pub readable : Event → Bool
  readable event = is_ok (sock_addr uv event.ip event.port)

  abbrev pub all_readable : List Event → Bool
  all_readable [] = true
  all_readable (event ∷ events) = readable event && all_readable events

  send_readable :
      (event : Event) (m : Machine W)
      → ((readable event ≡ true) × (m' : Machine W) × (send_event uv s event m ≡ (ok tt, m')))
        ⊎ ((readable event ≡ false) × (e : Error) × (send_event uv s event m ≡ (throws e, m)))
  send_readable event m =
      elim (Survives-cases (sock_addr uv event.ip event.port)
        (sock_addr-Survives uv event.ip event.port)) [
          | inr (e, h) ↦ inr (rw h refl, e, unfold send_event in rw h refl)
          | inl (a, h) ↦ elim (Bool-cases (is_zero (sent event a m).0)) [
            | inr z ↦ inl (
              rw h refl,
              record (returned event a m) {
                live = without m.next (without (suc m.next) (suc m.next ∷ m.next ∷ m.live));
              },
              unfold send_event in rw (h, z) refl,
            )
            | inl z ↦ inl (rw h refl, _, send_taken event a m h z)
          ]
        ]

  -- `_on_event` returns if the addresses of all its events can be read, and otherwise it ends the
  -- program by an exception that is caught nowhere, whatever codes libuv answers with.
  pub on_event-readable :
      (events : List Event) (m : Machine W)
      → (on_event_thread uv s events m).0 ≡ (if all_readable events then ok tt else fault uncaught)
  unfolding on_event_thread send_all
  on_event-readable [] m = refl
  on_event-readable (event ∷ events) m = elim (send_readable event m) [
    | inl (yes_read, m', h) ↦ rw (h, yes_read) (on_event-readable events m')
    | inr (not_read, e, h) ↦ rw (h, not_read) refl
  ]
