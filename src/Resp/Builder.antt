-- ===== src/Resp/Builder.antt =====
-- `RespReplyBuilder` of resp.h and resp.cpp; each call appends to the buffer.
use gossip_net.Prelude.{ℕ, ◌∷◌, ◌++◌, [], Bytes, codes, length}
use gossip_net.Decimal.{to_string}
use gossip_net.Decimal.Int.{ℤ, to_string_int}
use gossip_net.Resp.{cr, lf}

-- `_append_string`.
unfoldable pub append_string : Bytes → ℕ → Bytes → Bytes
append_string buffer type str = buffer ++ (type ∷ str ++ cr ∷ lf ∷ [])

unfoldable pub append_ok : Bytes → Bytes
append_ok buffer = buffer ++ codes "+OK" ++ cr ∷ lf ∷ []

unfoldable pub append_simple_string : Bytes → Bytes → Bytes
unfolding append_string
append_simple_string buffer str = append_string buffer b'+' str

unfoldable pub append_error : Bytes → Bytes → Bytes
unfolding append_string
append_error buffer err = append_string buffer b'-' err

unfoldable pub append_integer : Bytes → ℤ → Bytes
unfolding append_string
append_integer buffer num = append_string buffer b':' (to_string_int num)

unfoldable pub append_nil : Bytes → Bytes
append_nil buffer = buffer ++ codes "$-1" ++ cr ∷ lf ∷ []

unfoldable pub append_array : Bytes → ℤ → Bytes
unfolding append_string
append_array buffer size = append_string buffer b'*' (to_string_int size)

unfoldable pub append_bulk_string : Bytes → Bytes → Bytes
append_bulk_string buffer str =
    buffer ++ (b'$' ∷ to_string (length str) ++ (cr ∷ lf ∷ str ++ cr ∷ lf ∷ []))
