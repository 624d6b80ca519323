-- ===== src/Net/Messages.antt =====
-- The messages that `ack` and `ping` send, against the format that they declare and against the
-- parser that is to read them.
use gossip_net.Prelude.{
  ℕ, suc, ◌+◌, ◌*◌, ◌^◌, ◌≤◌, ◌<◌, ◌≡◌, refl, ap, sym, ◌∙◌, inl, inr, true, false, List, [], ◌∷◌,
  ◌++◌, append_assoc, append-nil, arith, Bytes, codes, length, Bool-cases, All,
}
use gossip_net.Outcome.{ok, throws, expect_tag, unknown_status}
use gossip_net.Decimal.{max_u64}
use gossip_net.Decimal.Int.{pos}
use gossip_net.Node.{Node, is_unknown}
use gossip_net.Resp.{cr, lf, parse}
use gossip_net.Resp.Builder.{append_array, append_simple_string}
use gossip_net.Resp.Extra.{parse-array}
use gossip_net.Wire.Accepted.{fields, rumor}
use gossip_net.Wire.Sent.{all_fields, rumor_fields}
use gossip_net.Net.{append_node, append_rumors, message}

-- The strings of a message: the command, then its arguments in the documented order.
abbrev pub words : Bytes → Node → List Node → List Bytes
words name self rumors = name ∷ fields (codes "self") self ++ all_fields rumors

-- The strings appended one behind the other.
abbrev pub strings : Bytes → List Bytes → Bytes
strings builder [] = builder
strings builder (w ∷ ws) = strings (append_simple_string builder w) ws

strings-append :
    (builder : Bytes) (vs ws : List Bytes)
    → strings builder (vs ++ ws) ≡ strings (strings builder vs) ws
strings-append builder [] ws = refl
strings-append builder (v ∷ vs) ws = strings-append (append_simple_string builder v) vs ws

abbrev pub IsSendable : Node → Type 0
IsSendable n = is_unknown n.status ≡ false

append_node-strings :
    (builder : Bytes) (n : Node)
    → IsSendable n
    → append_node builder rumor n true ≡ ok (strings builder (rumor_fields n))
unfolding append_node
append_node-strings builder n h = ground arith

append_rumors-strings :
    (builder : Bytes) (ns : List Node)
    → All IsSendable ns
    → append_rumors builder ns ≡ ok (strings builder (all_fields ns))
unfolding append_rumors all_fields
append_rumors-strings builder [] h = refl
append_rumors-strings builder (n ∷ ns) h = rw (append_node-strings builder n h.0) (
    append_rumors-strings (strings builder (rumor_fields n)) ns h.1
    ∙ ap ok (sym (strings-append builder (rumor_fields n) (all_fields ns))))

length-all_fields : (ns : List Node) → length (all_fields ns) ≡ length ns * 6
unfolding all_fields
length-all_fields [] = refl
length-all_fields (n ∷ ns) = omega (arith, length-all_fields ns)

-- A message whose rumors are all of a known status is an array of simple strings: the command and
-- its arguments in the documented order, as many as the array declares.
pub message-words :
    (name : Bytes) (self : Node) (rumors : List Node)
    → All IsSendable rumors
    → message name self rumors
      ≡ ok (
          strings
            (append_array [] (pos (length (words name self rumors))))
            (words name self rumors))
unfolding message
message-words name self rumors h =
    let e : 1 + 5 + length rumors * 6 ≡ length (words name self rumors) =
      omega (arith, length-all_fields rumors) in
    rw e (unfold append_node in append_rumors-strings _ rumors h)

append_node_unknown :
    (builder : Bytes) (n : Node)
    → is_unknown n.status ≡ true
    → append_node builder rumor n true ≡ throws unknown_status
unfolding append_node
append_node_unknown builder n h = ground arith

append_rumors-IsSendable :
    (builder msg : Bytes) (ns : List Node) → append_rumors builder ns ≡ ok msg → All IsSendable ns
unfolding append_rumors
append_rumors-IsSendable builder msg [] e = tt
append_rumors-IsSendable builder msg (n ∷ ns) e = elim (Bool-cases (is_unknown n.status)) [
  | inl u ↦ let q = append_node_unknown builder n u in cc
  | inr k ↦ (
    k,
    append_rumors-IsSendable (strings builder (rumor_fields n)) msg ns
        (rw (append_node-strings builder n k) at e),
  )
]

message-IsSendable :
    (name : Bytes) (self : Node) (rumors : List Node) (msg : Bytes)
    → message name self rumors ≡ ok msg
    → All IsSendable rumors
unfolding message append_node
message-IsSendable name self rumors msg e = append_rumors-IsSendable _ msg rumors e

strings-extends :
    (builder : Bytes) (ws : List Bytes) → (rest : Bytes) × (strings builder ws ≡ builder ++ rest)
unfolding append_simple_string
strings-extends builder [] = ([], sym (append-nil builder))
strings-extends builder (w ∷ ws) =
    let (rest, e) = strings-extends (append_simple_string builder w) ws in
    ((b'+' ∷ w ++ cr ∷ lf ∷ []) ++ rest, e ∙ append_assoc builder (b'+' ∷ w ++ cr ∷ lf ∷ []) rest)

parse-strings :
    (n : ℕ) (w : Bytes) (ws : List Bytes)
    → suc n ≤ max_u64
    → parse (strings (append_array [] (pos (suc n))) (w ∷ ws)) ≡ throws (expect_tag b'$')
unfolding append_simple_string
parse-strings n w ws fits =
    let header = append_array [] (pos (suc n)) in
    let (rest, e) = strings-extends (append_simple_string header w) ws in
    rw (e, append_assoc header (b'+' ∷ w ++ cr ∷ lf ∷ []) rest)
      (parse-array n b'+' ((w ++ cr ∷ lf ∷ []) ++ rest) fits (λ z. absurd (omega arith)))

-- A message as `ack` and `ping` build it, under whatever name and with fewer than 2 ^ 60 rumors,
-- is refused by the parser, which expects bulk strings.
pub parse-message :
    (name : Bytes) (self : Node) (rumors : List Node) (msg : Bytes)
    → length rumors < 2 ^ 60
    → message name self rumors ≡ ok msg
    → parse msg ≡ throws (expect_tag b'$')
parse-message name self rumors msg few e =
    let ws = fields (codes "self") self ++ all_fields rumors in
    let sent = message-words name self rumors (message-IsSendable name self rumors msg e) in
    let m : msg ≡ strings (append_array [] (pos (suc (length ws)))) (name ∷ ws) = cc in
    rw m (parse-strings (length ws) name ws (omega (arith, length-all_fields rumors)))
