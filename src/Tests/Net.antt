-- ===== src/Tests/Net.antt =====
-- Requests, replies and hexadecimal digits.
use hm.Prelude.{true, ◌≤◌, List, [], ◌∷◌, ◌++◌, ◌≡◌, arith, length}
use hm.Bytes.{Bytes}
use hm.RedisProtocol.Parser.{ok, parse}
use hm.RedisProtocol.Response.{strings, number_u64, write, size, length-write}
use hm.RedisProtocol.RoundTrip.{parse-write}
use hm.HexConvert.{from_hex_bytes, to_hex_all, from_hex_bytes-to_hex_all}
use hm.Tests.Data.{key_a, key_b}

abbrev get_a : List Bytes
get_a = (71 ∷ 69 ∷ 84 ∷ []) ∷ key_a ∷ []

parse-write_example : parse (write (strings get_a) ++ (42 ∷ [])) (key_b ∷ []) ≡ (ok, get_a)
parse-write_example =
    parse-write get_a (key_b ∷ []) (42 ∷ []) (omega arith) (omega arith)
      (omega arith, (omega arith, tt))

length-write_example :
    length (write (number_u64 18446744073709551615)) ≤ size (number_u64 18446744073709551615)
length-write_example = length-write (number_u64 18446744073709551615)

from_hex_bytes-to_hex_all_example :
    from_hex_bytes 16 (to_hex_all true (222 ∷ 173 ∷ [])) ≡ 222 ∷ 173 ∷ []
from_hex_bytes-to_hex_all_example =
    from_hex_bytes-to_hex_all true 16 (222 ∷ 173 ∷ []) (omega arith, (omega arith, tt))
      (omega arith)
