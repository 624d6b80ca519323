-- ===== src/Tests/Messages.antt =====
-- The arguments and the messages that members send, on concrete ones.
use gossip_net.Prelude.{[], ◌∷◌, arith, Bytes, codes, length}
use gossip_net.Decimal.Int.{pos}
use gossip_net.Resp.Builder.{append_array}
use gossip_net.Wire.Accepted.{IsSized}
use gossip_net.Net.Messages.{words, strings}
use gossip_net.Tests.{alice, bob, carol}

pub alice-IsSized : IsSized alice
alice-IsSized = record { port_fits = omega arith; version_fits = omega arith }

pub bob-IsSized : IsSized bob
bob-IsSized = record { port_fits = omega arith; version_fits = omega arith }

pub carol-IsSized : IsSized carol
carol-IsSized = record { port_fits = omega arith; version_fits = omega arith }

abbrev pub ping_text : Bytes
ping_text =
    strings (append_array [] (pos (length (words (codes "ping") alice (bob ∷ carol ∷ [])))))
      (words (codes "ping") alice (bob ∷ carol ∷ []))
