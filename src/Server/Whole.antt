-- ===== src/Server/Whole.antt =====
-- What every call of a member keeps, a datagram of any bytes keeps too, by udp_server.cpp.
use gossip_net.Prelude.{
  ℕ, ◌≤◌, length, take, ◌==◌, inl, inr, List, [], ◌∷◌, Bytes, Bool-cases, Option-cases,
}
use gossip_net.Outcome.{Outcome, ok, throws, fault}
use gossip_net.Outcome.Ends.{Ends, Ends-map}
use gossip_net.Exec.Runs.{Runs, Any, Runs-bind}
use gossip_net.Decimal.Int.{ℤ, pos, negsuc}
use gossip_net.Table.{find}
use gossip_net.Resp.{RespRequest, parse}
use gossip_net.Resp.Ends.{parse-Ends}
use gossip_net.Net.{Env, GossipNet}
use gossip_net.Wire.Known.{IsRead}
use gossip_net.Net.Steady.{IsSteady}
use gossip_net.Command.{run}
use gossip_net.Command.Whole.{run-Runs}
use gossip_net.Server.{Commands, run_requests, handle_parsed, caught_again, handle, on_read}

module _ (env : Env) (P : GossipNet → Type 0) (steady : IsSteady env IsRead P)
    (commands : Commands) where
  run_requests-Runs :
      (requests : List RespRequest) → Runs P Any (run_requests env commands requests)
  unfolding run_requests
  run_requests-Runs [] net w = (tt, w)
  run_requests-Runs (r ∷ rs) net w = elim (Option-cases (find r.name commands)) [
    | inl e ↦ rw e (run_requests-Runs rs net w)
    | inr (c, e) ↦ rw e (
        Runs-bind P Any Any (run env c r.args) (λ _. run_requests env commands rs)
          (run-Runs env P steady c r.args) (λ _ _. run_requests-Runs rs) net w)
  ]

  handle_parsed-Runs :
      (r : Outcome (List RespRequest × ℕ)) → Ends Any r → Runs P Any (handle_parsed env commands r)
  handle_parsed-Runs (ok q) h net w = run_requests-Runs q.0 net w
  handle_parsed-Runs (throws e) h net w = (tt, w)
  handle_parsed-Runs (fault x) h net w = (h, w)

  caught_again-Ends :
      (r : Outcome (Unit {0}) × GossipNet)
      → Ends Any r.0 × P r.1
      → Ends Any (caught_again r).0 × P (caught_again r).1
  caught_again-Ends (ok u, net) h = h
  caught_again-Ends (throws e, net) h = (tt, h.1)
  caught_again-Ends (fault x, net) h = h

  pub handle-Runs : (buffer : Bytes) → Runs P Any (handle env commands buffer)
  unfolding handle
  handle-Runs buffer net w = caught_again-Ends (handle_parsed env commands (parse buffer) net) (
      handle_parsed-Runs (parse buffer)
        (Ends-map (λ r. r.1 ≤ length buffer) Any (parse buffer) (parse-Ends buffer) (λ _ _. tt)) net
        w)

  pub on_read-Runs : (n : ℤ) (buffer : Bytes) → Runs P Any (on_read env commands n buffer)
  unfolding on_read
  on_read-Runs (negsuc n) buffer net w = (tt, w)
  on_read-Runs (pos n) buffer net w = elim (Bool-cases (n == 0)) [
    | inl e ↦ rw e (tt, w)
    | inr e ↦ rw e (handle-Runs (take n buffer) net w)
  ]
