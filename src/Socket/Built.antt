-- ===== src/Socket/Built.antt =====
-- What the construction of the UDP server comes to, and what its destruction does.
use gossip_net.Prelude.{
  ℕ, suc, ◌≡◌, refl, ◌⊎◌, inl, inr, true, false, some, List, [], ◌∷◌, arith, Bool-cases,
  if◌then◌else◌, ◌==◌,
}
use mathlib.Core.Path.{subst}
use gossip_net.Outcome.{ok, throws, fault, use_after_free, Error}
use gossip_net.Outcome.Ends.{Survives-cases}
use gossip_net.Uv.{Libuv, Machine, is_zero, is_live, SockAddr, sock_addr, addr, without, link_of}
use gossip_net.Uv.Make.{make_udp_server}
use gossip_net.Uv.Lawful.{IsLibuv, delete_loop_freed}
use gossip_net.Uv.Unwind.{IsFresh, sock_addr-Survives}
use gossip_net.Socket.{UdpServerOptions, UdpServer, make_members, construct, destroy}
use gossip_net.Socket.Setup.{
  given, setup_udp_no_address, setup_udp_unbound, setup_udp_ok, make_async_fails, make_async_ok,
}
use gossip_net.Socket.Open.{
  bound_to, Accepts, opened, udp_opts, Stands, make_udp_server_ok, make_udp_server_throws,
  members_refused, members_no_async, members_ok, construct_ok, construct_throws,
}

pub is_live-without :
    (h j : ℕ) (xs : List ℕ) → is_live h (without j xs) ≡ (if j == h then false else is_live h xs)
unfolding without
is_live-without h j [] = ground arith
is_live-without h j (x ∷ xs) = ground (arith, is_live-without h j xs)

module _ {W : Type 0} (uv : Libuv W) (lawful : IsLibuv uv) where
  -- The destructor frees the two handles while the loop has them.
  pub destroy-Stands :
      (self : ℕ) (s : UdpServer) (m : Machine W)
      → Stands uv self s m
      → (destroy uv s m).0 ≡ fault use_after_free
  unfolding destroy
  destroy-Stands self s m st =
      delete_loop_freed uv lawful s.server
        (record m { live = without s.server (without s.async m.live) }) st.has_loop st.open_server
        (ground (arith, is_live-without s.server s.server (without s.async m.live)))

  module _ (on_event self : ℕ) (opts : UdpServerOptions) (m : Machine W) where
    construct_freed :
        (e : Error) (n : Machine W)
        → is_zero (uv.loop_init m.world).0 ≡ true
        → make_members uv on_event self opts (opened uv m) ≡ (throws e, n)
        → n.has_loop ≡ true
        → is_live m.next (uv.walked n.world) ≡ true
        → is_live m.next n.live ≡ false
        → (construct uv on_event self opts m).0 ≡ fault use_after_free
    construct_freed e n l h loop listed freed =
        rw
          (
            construct_throws uv on_event self opts m e n l h,
            delete_loop_freed uv lawful m.next n loop listed freed,
          )
          refl

    module _ (fresh : IsFresh m) (l : is_zero (uv.loop_init m.world).0 ≡ true)
        (z : is_zero (uv.udp_init m.next (uv.loop_init m.world).1).0 ≡ true) where
      -- The loop has the UDP handle, and nothing else.
      inited_listed :
          is_live m.next (uv.walked (uv.udp_init m.next (uv.loop_init m.world).1).1) ≡ true
      inited_listed =
          let e = lawful.udp_init_ok m.next (uv.loop_init m.world).1 z in ground (arith, e)

      bound_listed :
          (a : SockAddr) → is_live m.next (uv.walked (bound_to uv self opts m a).1) ≡ true
      bound_listed a =
          rw (lawful.udp_bind_keeps m.next (addr a) (uv.udp_init m.next (uv.loop_init m.world).1).1)
            inited_listed

      freed : is_live m.next (without m.next (m.next ∷ m.live)) ≡ false
      freed = ground (arith, is_live-without m.next m.next (m.next ∷ m.live))

      no_address :
          (e : Error)
          → sock_addr uv opts.ip opts.port ≡ throws e
          → (construct uv on_event self opts m).0 ≡ fault use_after_free
      no_address e a =
          let o = udp_opts opts in
          let n = opened uv m in
          let setup = setup_udp_no_address uv o (some self) m.next (given uv n) z e a in
          let made =
            make_udp_server_throws uv o (some self) n
              (record (given uv n) { world = (uv.udp_init m.next n.world).1 }) e setup in
          construct_freed e _ l (members_refused uv on_event self opts n e _ made) refl
            inited_listed freed

      unbound :
          (a : SockAddr)
          → sock_addr uv opts.ip opts.port ≡ ok a
          → is_zero (bound_to uv self opts m a).0 ≡ false
          → (construct uv on_event self opts m).0 ≡ fault use_after_free
      unbound a h b =
          let o = udp_opts opts in
          let n = opened uv m in
          let (e, setup) = setup_udp_unbound uv o (some self) m.next (given uv n) z a h b in
          let made =
            make_udp_server_throws uv o (some self) n
              (record (given uv n) { world = (bound_to uv self opts m a).1 }) e setup in
          construct_freed e _ l (members_refused uv on_event self opts n e _ made) refl
            (bound_listed a) freed

      module _ (a : SockAddr) (h : sock_addr uv opts.ip opts.port ≡ ok a)
          (b : is_zero (bound_to uv self opts m a).0 ≡ true) where
        -- The state with the UDP handle made.
        served : Machine W
        served = record (given uv (opened uv m)) {
          world = (bound_to uv self opts m a).1;
          links = (m.next, some self) ∷ m.links;
        }

        server_made :
            make_udp_server uv (udp_opts opts) (some self) (opened uv m) ≡ (ok m.next, served)
        unfolding served
        server_made =
            let o = udp_opts opts in
            let n = opened uv m in
            make_udp_server_ok uv o (some self) n _
              (setup_udp_ok uv o (some self) m.next (given uv n) z a h b)

        no_async :
            is_zero (uv.async_init (suc m.next) on_event (bound_to uv self opts m a).1).0 ≡ false
            → (construct uv on_event self opts m).0 ≡ fault use_after_free
        unfolding served
        no_async c =
            let (e, failed) = make_async_fails uv on_event (some self) served c in
            let kept =
              lawful.async_init_fails (suc m.next) on_event (bound_to uv self opts m a).1 c in
            construct_freed e _ l
              (members_no_async uv on_event self opts (opened uv m) e m.next served _ server_made
                failed)
              refl (rw kept (bound_listed a))
              (ground (
                arith,
                is_live-without m.next m.next (without (suc m.next) (suc m.next ∷ m.next ∷ m.live)),
              ))

        all_made :
            is_zero (uv.async_init (suc m.next) on_event (bound_to uv self opts m a).1).0 ≡ true
            → (s : UdpServer) × (m' : Machine W) × (construct uv on_event self opts m ≡ (ok s, m'))
              × Stands uv self s m'
        unfolding served link_of
        all_made c =
            let made = make_async_ok uv on_event (some self) served c in
            let listed =
              lawful.async_init_ok (suc m.next) on_event (bound_to uv self opts m a).1 c in
            (
              record { server = m.next; async = suc m.next; buffer_size = opts.buffer_size },
              _,
              construct_ok uv on_event self opts m _ _ l (
                  members_ok uv on_event self opts (opened uv m) m.next (suc m.next) served _
                    server_made made),
              record {
                has_loop = refl;
                open_server = ground (arith, listed, bound_listed a);
                open_async = ground (arith, listed);
                live_server = ground arith;
                live_async = ground arith;
                server_linked = ground arith;
                async_linked = ground arith;
                distinct = λ e. omega (arith, e);
              },
            )

      -- If the loop and the UDP handle are initialised, the constructor either returns a server that
      -- stands, its two handles the loop's and allocated, each with the object as data; or the address,
      -- the binding or the other handle fails, and then the destructor of the loop closes a handle in
      -- memory that is freed. Libuv keeps its list of handles as documented, and nothing stands at the
      -- next address yet.
      pub construct-Stands :
          (Accepts uv on_event self opts m
            × (s : UdpServer) × (m' : Machine W) × (construct uv on_event self opts m ≡ (ok s, m'))
            × Stands uv self s m')
          ⊎ ((Accepts uv on_event self opts m → ⊥)
              × ((construct uv on_event self opts m).0 ≡ fault use_after_free))
      construct-Stands =
          elim (Survives-cases (sock_addr uv opts.ip opts.port)
            (sock_addr-Survives uv opts.ip opts.port)) [
              | inr (e, h) ↦ inr (λ (a, ha, _, _). cc, no_address e h)
              | inl (a, h) ↦ elim (Bool-cases (is_zero (bound_to uv self opts m a).0)) [
                | inr b ↦ inr (
                  λ (a', ha, hb, _).
                      let q : a' ≡ a = cc in
                      let r = subst (λ x. is_zero (bound_to uv self opts m x).0 ≡ true) q hb in cc,
                  unbound a h b,
                )
                | inl b ↦
                    elim (Bool-cases (
                      is_zero
                        (uv.async_init (suc m.next) on_event (bound_to uv self opts m a).1).0)) [
                          | inr c ↦ inr (
                            λ (a', ha, _, hc).
                                let q : a' ≡ a = cc in
                                let r =
                                  subst
                                    (λ x.
                                      is_zero
                                        (uv.async_init (suc m.next) on_event
                                          (bound_to uv self opts m x).1).0
                                      ≡ true)
                                    q hc in
                                cc,
                            no_async a h b c,
                          )
                          | inl c ↦
                              let (s, m', e, st) = all_made a h b c in
                              inl ((a, h, b, c), s, m', e, st)
                        ]
              ]
            ]
