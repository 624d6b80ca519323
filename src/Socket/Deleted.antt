-- ===== src/Socket/Deleted.antt =====
-- The destructor of `GossipNet`, on any server that the constructor of `UdpServer` returns.
use gossip_net.Prelude.{◌≡◌, ◌⊎◌, Bool, true, false, none, some}
use gossip_net.Outcome.{Outcome, fault, use_after_free}
use gossip_net.Net.{GossipNet}
use gossip_net.Uv.{Libuv, Machine}
use gossip_net.Socket.{UdpServer, delete_net}

-- The two ends of the destructor: it waits for ever, or a handle is closed in memory that is freed.
abbrev pub NeverEnds : {W : Type 0} → Libuv W → Bool → GossipNet → UdpServer → Machine W → Type 0
NeverEnds {W} uv ended net s n =
    ((net.running ≡ true) × (ended ≡ false) × (delete_net uv ended net s n ≡ none))
    ⊎ ((n' : Machine W) × (delete_net uv ended net s n ≡ some (fault use_after_free, n')))
