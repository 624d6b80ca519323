-- ===== src/Wire/Accepted.antt =====
-- The arguments that `parse_node` and `parse_rumors` read as nodes.
use gossip_net.Prelude.{
  ℕ, zero, suc, ◌+◌, ◌≤◌, ◌<◌, ◌≡◌, refl, ap, ◌∙◌, List, [], ◌∷◌, ◌++◌, map, append_assoc,
  append-nil, arith, Bytes, codes, same_refl, length, All,
}
use gossip_net.Outcome.{ok, fault, out_of_bounds}
use gossip_net.Decimal.{max_u64, to_string}
use gossip_net.Decimal.RoundTrip.{from_chars-to_string}
use gossip_net.Decimal.Int.{ℤ, IsInt, to_string_int, from_chars_int-to_string_int}
use gossip_net.Node.{Node, alive, unknown, parse_status}
use gossip_net.Wire.{to_num_int, to_num_u64, with_status, parse_node, rumors_loop, parse_rumors}

-- The numbers of the node fit their types.
pub record IsSized (n : Node) : Type 0 where
  pub port_fits : IsInt n.port
  pub version_fits : n.version ≤ max_u64

-- The five arguments that describe a node.
abbrev pub fields : Bytes → Node → List Bytes
fields type n = type ∷ n.id ∷ n.ip ∷ to_string_int n.port ∷ to_string n.version ∷ []

abbrev pub as_alive : Node → Node
as_alive n = record n { status = alive }

pub to_num_int-to_string_int : (i : ℤ) → IsInt i → to_num_int (to_string_int i) ≡ ok i
unfolding to_num_int
to_num_int-to_string_int i h = rw (rw append-nil at (from_chars_int-to_string_int i [] h tt)) refl

pub to_num_u64-to_string : (n : ℕ) → n ≤ max_u64 → to_num_u64 (to_string n) ≡ ok n
unfolding to_num_u64
to_num_u64-to_string n h = rw (rw append-nil at (from_chars-to_string max_u64 n [] h tt)) refl

-- Behind the five arguments `parse_node` goes on with the status.
pub parse_node-fields :
    (type : Bytes) (n : Node) (rest : List Bytes)
    → IsSized n
    → parse_node type (fields type n ++ rest) ≡ with_status (as_alive n) rest
unfolding parse_node
parse_node-fields type n rest h =
    rw
      (
        same_refl type,
        to_num_int-to_string_int n.port h.port_fits,
        to_num_u64-to_string n.version h.version_fits,
      )
      refl

-- A node that stands alone is read back, with the status ALIVE.
pub parse_node-alone :
    (type : Bytes) (n : Node) → IsSized n → parse_node type (fields type n) ≡ ok (as_alive n, [])
unfolding with_status
parse_node-alone type n h = parse_node-fields type n [] h

-- Text that is no status behind the next one: the next one is skipped, whatever it is.
pub with_status_skip :
    (n : Node) (x y : Bytes) (rest : List Bytes)
    → parse_status y ≡ unknown
    → with_status n (x ∷ y ∷ rest) ≡ ok (n, y ∷ rest)
unfolding with_status
with_status_skip n x y rest e = rw e refl

pub with_status_end : (n : Node) (x : Bytes) → with_status n (x ∷ []) ≡ fault out_of_bounds
unfolding with_status
with_status_end n x = refl

abbrev pub rumor : Bytes
rumor = codes "rumor"

pub rumor_unknown : parse_status rumor ≡ unknown
unfolding parse_status
rumor_unknown = refl

-- The rumors that the parser understands: something between two of them, and nothing at the end.
unfoldable pub spaced : (Node → Bytes) → Node → List Node → List Bytes
spaced gap n [] = fields rumor n
spaced gap n (m ∷ ms) = fields rumor n ++ gap n ∷ spaced gap m ms

pub spaced-head :
    (gap : Node → Bytes) (n : Node) (ms : List Node)
    → (rest : List Bytes) × (spaced gap n ms ≡ rumor ∷ rest)
unfolding spaced
spaced-head gap n [] = (n.id ∷ n.ip ∷ to_string_int n.port ∷ to_string n.version ∷ [], refl)
spaced-head gap n (m ∷ ms) =
    (n.id ∷ n.ip ∷ to_string_int n.port ∷ to_string n.version ∷ gap n ∷ spaced gap m ms, refl)

-- One round of the loop over the rumors.
pub rumors_round :
    (f : ℕ) (args rest : List Bytes) (n : Node) (rumors : List Node)
    → 0 < length args
    → parse_node rumor args ≡ ok (n, rest)
    → rumors_loop (suc f) args rumors ≡ rumors_loop f rest (rumors ++ n ∷ [])
unfolding rumors_loop
rumors_round f [] rest n rumors h e = absurd (omega arith)
rumors_round f (a ∷ args) rest n rumors h e = rw e refl

pub parse_node-gap :
    (n : Node) (x : Bytes) (rest : List Bytes)
    → IsSized n
    → parse_node rumor (fields rumor n ++ x ∷ rumor ∷ rest) ≡ ok (as_alive n, rumor ∷ rest)
parse_node-gap n x rest h =
    parse_node-fields rumor n (x ∷ rumor ∷ rest) h
    ∙ with_status_skip (as_alive n) x rumor rest rumor_unknown

rumors_end : (f : ℕ) (rumors : List Node) → rumors_loop (suc f) [] rumors ≡ ok rumors
unfolding rumors_loop
rumors_end f rumors = refl

rumors_loop-spaced :
    (gap : Node → Bytes) (f : ℕ) (n : Node) (ms acc : List Node)
    → All IsSized (n ∷ ms)
    → length ms + 2 ≤ f
    → rumors_loop f (spaced gap n ms) acc ≡ ok (acc ++ map as_alive (n ∷ ms))
unfolding spaced
rumors_loop-spaced gap zero n ms acc sized h = absurd (omega arith)
rumors_loop-spaced gap (suc zero) n ms acc sized h = absurd (omega arith)
rumors_loop-spaced gap (suc (suc f)) n [] acc sized h =
    rumors_round (suc f) (fields rumor n) [] (as_alive n) acc (omega arith)
      (parse_node-alone rumor n sized.0)
    ∙ rumors_end f (acc ++ as_alive n ∷ [])
rumors_loop-spaced gap (suc (suc f)) n (m ∷ ms) acc sized h =
    let (rest, e) = spaced-head gap m ms in
    let one : parse_node rumor (fields rumor n ++ gap n ∷ spaced gap m ms)
        ≡ ok (as_alive n, spaced gap m ms) =
      rw e (parse_node-gap n (gap n) rest sized.0) in
    rumors_round (suc f) (fields rumor n ++ gap n ∷ spaced gap m ms) (spaced gap m ms) (as_alive n)
      acc (omega arith) one
    ∙ rumors_loop-spaced gap (suc f) m ms (acc ++ as_alive n ∷ []) sized.1 (omega arith)
    ∙ ap ok (append_assoc acc (as_alive n ∷ []) (map as_alive (m ∷ ms)))

length-spaced :
    (gap : Node → Bytes) (n : Node) (ms : List Node) → length ms + 5 ≤ length (spaced gap n ms)
unfolding spaced
length-spaced gap n [] = omega arith
length-spaced gap n (m ∷ ms) = omega (arith, length-spaced gap m ms)

-- Rumors with 32-bit ports and 64-bit versions, with any one argument between two of them, such as
-- a status, and none behind the last, are all read back, each as ALIVE: what stands between them
-- is never looked at.
pub parse_rumors-spaced :
    (gap : Node → Bytes) (n : Node) (ms : List Node)
    → All IsSized (n ∷ ms)
    → parse_rumors (spaced gap n ms) ≡ ok (map as_alive (n ∷ ms))
unfolding parse_rumors
parse_rumors-spaced gap n ms sized =
    rumors_loop-spaced gap _ n ms [] sized (omega (arith, length-spaced gap n ms))
