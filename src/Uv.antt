-- ===== src/Uv.antt =====
-- uv_utils.h and uv_utils.cpp: what the program asks of libuv, the errors that it throws on libuv's
-- codes, the addresses, and the memory of the handles.
pub mod Make
pub mod Lawful
pub mod Unwind
pub mod Made
use gossip_net.Prelude.{
  ℕ, suc, ◌+◌, ◌-◌, ◌%◌, ◌^◌, Bool, true, false, Option, none, some, List, [], ◌∷◌, ◌++◌, Bytes,
  codes, ◌==◌, ◌||◌, if◌then◌else◌,
}
use gossip_net.Outcome.{Outcome, ok, throws, fault, uv_error, use_after_free}
use gossip_net.Outcome
use gossip_net.Exec.{Exec, continue, ◌>>=◌, ◌>>◌, lift}
use gossip_net.Decimal.Int.{ℤ, pos, negsuc}

-- The calls of libuv, and `setsockopt`: each gives a code, and leaves the loop and the system in
-- another state `W`. A handle, a request, a callback and an object of the program are their
-- addresses; a socket address is its bytes.
pub record Libuv (W : Type 0) : Type 0 where
  pub err_name : ℤ → Bytes
  pub strerror : ℤ → Bytes
  pub ip4_addr : Bytes → ℤ → ℤ × Bytes
  pub ip6_addr : Bytes → ℤ → ℤ × Bytes
  pub loop_init : W → ℤ × W
  pub loop_close : W → ℤ × W
  pub walked : W → List ℕ
  pub close : ℕ → W → W
  pub run : W → W
  pub async_init : ℕ → ℕ → W → ℤ × W
  pub async_send : ℕ → W → W
  pub timer_init : ℕ → W → ℤ × W
  pub timer_start : ℕ → ℕ → ℕ → ℕ → W → ℤ × W
  pub tcp_init : ℕ → W → W
  pub tcp_init_ex : ℕ → Bool → W → W
  pub fileno : ℕ → W → ℤ × ℤ
  pub set_reuseport : ℤ → W → ℤ × W
  pub tcp_nodelay : ℕ → W → ℤ × W
  pub tcp_bind : ℕ → Bytes → W → ℤ × W
  pub listen : ℕ → ℤ → ℕ → W → ℤ × W
  pub udp_init : ℕ → W → ℤ × W
  pub udp_bind : ℕ → Bytes → W → ℤ × W
  pub udp_recv_start : ℕ → W → W
  pub udp_send : ℕ → ℕ → Bytes → Bytes → W → ℤ × W

-- The loop as libuv sees it, whether the program has its memory, the blocks that the program has
-- allocated, the next address, and the `data` of handles and requests.
pub record Machine (W : Type 0) : Type 0 where
  pub world : W
  pub has_loop : Bool
  pub live : List ℕ
  pub next : ℕ
  pub links : List (ℕ × Option ℕ)

-- `err == 0`.
abbrev pub is_zero : ℤ → Bool
is_zero (pos n) = n == 0
is_zero (negsuc n) = false

-- The constructor of `UvError`, on `err_msg`.
abbrev pub err_msg : {W : Type 0} → Libuv W → ℤ → Bytes
err_msg uv err = uv.err_name err ++ codes ": " ++ uv.strerror err

abbrev pub uv_failure : {W : Type 0} → Libuv W → ℤ → Bytes → Outcome.Error
uv_failure uv err msg = uv_error (err_msg uv err ++ codes ", " ++ msg)

-- `if (err != 0) throw UvError(err, msg)`.
unfoldable pub require : {W : Type 0} → Libuv W → ℤ → Bytes → Outcome (Unit {0})
require uv err msg = if is_zero err then ok tt else throws (uv_failure uv err msg)

unfoldable pub is_ipv6 : Bytes → Bool
is_ipv6 [] = false
is_ipv6 (c ∷ ip) = c == b':' || is_ipv6 ip

-- The `variant` of an address of either kind.
pub data SockAddr : Type 0 where
  in4 in6 : Bytes → SockAddr

unfoldable pub sock_addr : {W : Type 0} → Libuv W → Bytes → ℤ → Outcome SockAddr
sock_addr uv ip port =
    if is_ipv6 ip
    then (Outcome.◌>>=◌ (require uv (uv.ip6_addr ip port).0 (codes "invalid ipv6 address"))
        (λ _. ok (in6 (uv.ip6_addr ip port).1)))
    else (Outcome.◌>>=◌ (require uv (uv.ip4_addr ip port).0 (codes "invalid ipv4 address"))
        (λ _. ok (in4 (uv.ip4_addr ip port).1)))

abbrev pub addr : SockAddr → Bytes
addr (in4 a) = a
addr (in6 a) = a

-- The conversion of a count of milliseconds to `uint64_t`.
abbrev pub as_u64 : ℤ → ℕ
as_u64 (pos n) = n % 2 ^ 64
as_u64 (negsuc n) = 2 ^ 64 - 1 - n % 2 ^ 64

abbrev pub is_live : ℕ → List ℕ → Bool
is_live h [] = false
is_live h (x ∷ xs) = x == h || is_live h xs

unfoldable pub without : ℕ → List ℕ → List ℕ
without h [] = []
without h (x ∷ xs) = let rest = without h xs in if x == h then rest else x ∷ rest

unfoldable pub link_of : ℕ → List (ℕ × Option ℕ) → Option ℕ
link_of h [] = none
link_of h ((x, d) ∷ links) = if x == h then d else link_of h links

module _ {W : Type 0} where
  abbrev pub call : (W → ℤ × W) → Exec (Machine W) ℤ
  call f m = let (err, w) = f m.world in (ok err, record m { world = w })

  abbrev pub call_void : (W → W) → Exec (Machine W) (Unit {0})
  call_void f m = (ok tt, record m { world = f m.world })

  -- A call whose code is looked at.
  unfoldable pub checked : Libuv W → (W → ℤ × W) → Bytes → Exec (Machine W) (Unit {0})
  checked uv f msg = call f >>= λ err. lift (require uv err msg)

  -- `std::make_unique`.
  abbrev pub new : Exec (Machine W) ℕ
  new m = (ok m.next, record m { live = m.next ∷ m.live; next = suc m.next })

  -- `delete`, also by a `unique_ptr`.
  abbrev pub free : ℕ → Exec (Machine W) (Unit {0})
  free h m = (ok tt, record m { live = without h m.live })

  abbrev pub set_data : ℕ → Option ℕ → Exec (Machine W) (Unit {0})
  set_data h object m = (ok tt, record m { links = (h, object) ∷ m.links })

  -- A destructor that runs when an exception leaves its scope.
  abbrev pub rethrown :
      {A : Type 0} → Exec (Machine W) (Unit {0}) → Outcome A × Machine W → Outcome A × Machine W
  rethrown cleanup (ok a, m) = (ok a, m)
  rethrown cleanup (throws e, m) = continue (cleanup m).0 (λ _ n. (throws e, n)) (cleanup m).1
  rethrown cleanup (fault x, m) = (fault x, m)

  abbrev pub unwinding :
      {A : Type 0} → Exec (Machine W) (Unit {0}) → Exec (Machine W) A → Exec (Machine W) A
  unwinding cleanup body m = rethrown cleanup (body m)

  -- `uv::handle_close`, and the callback of `uv_walk`: libuv writes to the handle.
  unfoldable pub handle_close : Libuv W → ℕ → Exec (Machine W) (Unit {0})
  handle_close uv h m =
      if is_live h m.live
      then (ok tt, record m { world = uv.close h m.world })
      else (fault use_after_free, m)
