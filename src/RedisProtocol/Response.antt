-- ===== src/RedisProtocol/Response.antt =====
-- RedisProtocol::Response of net/protocol/redisprotocol.h: each reply, as the bytes that it writes,
-- and the size it announces for the buffer.
use hm.Prelude.{
  ℕ, ◌+◌, ◌-◌, ◌^◌, ◌≤◌, List, [], ◌∷◌, ◌++◌, Bool, ltb, if◌then◌else◌, length, length-append, ◌≡◌,
  arith,
}
use hm.Bytes.{Bytes}
use hm.Decimal.{to_string, length-to_chars-le}
use hm.RedisProtocol.Parser.{star, dollar, endln}

-- The reply classes. A number of Number64 is given by its digits and its sign.
pub data Response : Type 0 where
  ok : Response
  bool : Bool → Response
  error : Bytes → Response
  string : Bytes → Response
  simple_string : Bytes → Response
  number_64 : Bool → ℕ → Response
  number_u64 : ℕ → Response
  number_sv : Bytes → Response
  strings : List Bytes → Response

-- responceNumberSV__
pub response_number : Bytes → Bytes
response_number n = 58 ∷ (n ++ endln)

-- responceStringNR__
unfoldable pub response_string : Bytes → Bytes
response_string msg = dollar ∷ (to_string (length msg) ++ (endln ++ (msg ++ endln)))

-- the loop of Strings
unfoldable pub response_strings : List Bytes → Bytes
unfolding response_string
response_strings [] = []
response_strings (msg ∷ msgs) = response_string msg ++ response_strings msgs

-- a number that is sent as a string, since signed readers may not hold it
abbrev pub is_wide : ℕ → Bool
is_wide n = ltb (2 ^ 60 - 1) n

-- operator() of each class: the bytes written
unfoldable pub write : Response → Bytes
unfolding response_number response_string response_strings
write ok = (43 ∷ 79 ∷ 75 ∷ []) ++ endln
write (bool b) = (if b then 58 ∷ 49 ∷ [] else 58 ∷ 48 ∷ []) ++ endln
write (error msg) = (45 ∷ 69 ∷ 82 ∷ 82 ∷ 32 ∷ []) ++ (msg ++ endln)
write (string msg) = response_string msg
write (simple_string msg) = 43 ∷ (msg ++ endln)
write (number_64 negative n) = response_number (if negative then 45 ∷ to_string n else to_string n)
write (number_u64 n) =
    if is_wide n then response_string (to_string n) else response_number (to_string n)
write (number_sv n) = response_number n
write (strings msgs) = star ∷ (to_string (length msgs) ++ (endln ++ response_strings msgs))

-- calc_size_int: to_string_buffer_t_size
abbrev pub calc_size_int : ℕ
calc_size_int = 48

-- calc_size_str
abbrev pub calc_size_str : ℕ → ℕ
calc_size_str len = 1 + calc_size_int + 2 + len + 2

-- the sum in Strings::size
unfoldable pub calc_size_strings : List Bytes → ℕ
calc_size_strings [] = 0
calc_size_strings (msg ∷ msgs) = calc_size_str (length msg) + calc_size_strings msgs

-- size of each class: 20 is the length of the largest number
unfoldable pub size : Response → ℕ
unfolding calc_size_strings
size ok = 3 + 2
size (bool b) = 2 + 2
size (error msg) = 5 + length msg + 2
size (string msg) = calc_size_str (length msg)
size (simple_string msg) = 1 + length msg + 2
size (number_64 negative n) = 1 + calc_size_int + 2
size (number_u64 n) = if is_wide n then calc_size_str 20 else 1 + calc_size_int + 2
size (number_sv n) = 1 + length n + 2
size (strings msgs) = 1 + calc_size_int + 2 + calc_size_strings msgs

length-response_string : (msg : Bytes) → length (response_string msg) ≤ calc_size_str (length msg)
unfolding response_string
length-response_string msg = omega (
  arith,
  length-append (to_string (length msg)) (endln ++ (msg ++ endln)),
  length-append msg endln,
  length-to_chars-le 20 (length msg),
)

length-response_number : (n : Bytes) → length (response_number n) ≡ 1 + length n + 2
unfolding response_number
length-response_number n = omega (arith, length-append n endln)

length-response_strings :
    (msgs : List Bytes) → length (response_strings msgs) ≤ calc_size_strings msgs
unfolding response_strings calc_size_strings
length-response_strings [] = omega arith
length-response_strings (msg ∷ msgs) = omega (
  arith,
  length-append (response_string msg) (response_strings msgs),
  length-response_string msg,
  length-response_strings msgs,
)

-- No reply writes more bytes than the size that it announces, by which its buffer is reserved.
pub length-write : (r : Response) → length (write r) ≤ size r
unfolding write size
length-write ok = omega arith
length-write (bool b) = ground arith
length-write (error msg) = omega (arith, length-append msg endln)
length-write (string msg) = length-response_string msg
length-write (simple_string msg) = omega (arith, length-append msg endln)
length-write (number_64 negative n) = ground (
  arith,
  length-response_number (45 ∷ to_string n),
  length-response_number (to_string n),
  length-to_chars-le 20 n,
)
length-write (number_u64 n) = ground (
  arith,
  length-response_string (to_string n),
  length-response_number (to_string n),
  length-to_chars-le 20 n,
)
length-write (number_sv n) = omega (arith, length-response_number n)
length-write (strings msgs) = omega (
  arith,
  length-append (to_string (length msgs)) (endln ++ response_strings msgs),
  length-to_chars-le 20 (length msgs),
  length-response_strings msgs,
)
