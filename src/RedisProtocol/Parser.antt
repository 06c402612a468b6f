-- ===== src/RedisProtocol/Parser.antt =====
-- RedisProtocolParser of net/protocol/redisprotocol.cc. The position in the text is the text that is
-- left: `pos + 2 > src.size()` says that fewer than two characters are left, and reading `src[pos]` is
-- taking the first of them.
use hm.Prelude.{
  ℕ, zero, suc, ◌-◌, ◌^◌, List, [], ◌∷◌, ◌++◌, Bool, ltb, ◌==◌, ◌&&◌, ◌||◌, if◌then◌else◌, length,
  take, drop,
}
use hm.Bytes.{Bytes}
use hm.Decimal.{is_digit, atoi}

pub data ProtocolStatus : Type 0 where
  ok buffer_not_read error : ProtocolStatus

abbrev pub star : ℕ
star = 42

abbrev pub dollar : ℕ
dollar = 36

abbrev pub endln : Bytes
endln = 13 ∷ 10 ∷ []

abbrev pub max_params : ℕ
max_params = 255

abbrev pub max_param_size : ℕ
max_param_size = 2 ^ 28 - 1

abbrev pub int_buffer_size : ℕ
int_buffer_size = 16

-- '-', '+' or a digit
abbrev pub is_int_char : ℕ → Bool
is_int_char c = c == 45 || c == 43 || is_digit c

-- the loop of readInt_: the characters it copies, at most `room`, and what is left
unfoldable pub copy_int : ℕ → Bytes → Bytes × Bytes
copy_int zero src = ([], src)
copy_int (suc room) [] = ([], [])
copy_int (suc room) (c ∷ src) =
    let (buff, left) = copy_int room src in
    if is_int_char c then (c ∷ buff, left) else ([], c ∷ src)

-- readInt_, cast to size_t
unfoldable pub read_int : Bytes → ℕ × Bytes
unfolding copy_int
read_int src = let (buff, left) = copy_int int_buffer_size src in (atoi buff, left)

-- readLn_
unfoldable pub read_ln : Bytes → ProtocolStatus × Bytes
read_ln [] = (buffer_not_read, [])
read_ln (c ∷ []) = (buffer_not_read, c ∷ [])
read_ln (c ∷ d ∷ src) = if c == 13 && d == 10 then (ok, src) else (error, c ∷ d ∷ src)

-- the end of readParam_: CRLF after the data
unfoldable pub close_param : Bytes → ProtocolStatus × Bytes → (ProtocolStatus × Bytes) × Bytes
close_param arg (ok, src) = ((ok, arg), src)
close_param arg (s, src) = ((s, []), src)

-- readParam_ after the line with the size: the data of that size, if it is there
unfoldable pub read_data : ℕ → ProtocolStatus × Bytes → (ProtocolStatus × Bytes) × Bytes
unfolding close_param read_ln
read_data size (ok, src) =
    if ltb (length src) size
    then ((buffer_not_read, []), src)
    else close_param (take size src) (read_ln (drop size src))
read_data size (s, src) = ((s, []), src)

-- readParam_ after its first character
unfoldable pub read_sized : ℕ × Bytes → (ProtocolStatus × Bytes) × Bytes
unfolding read_data read_ln
read_sized (size, src) =
    if ltb max_param_size size then ((error, []), src) else read_data size (read_ln src)

-- readParam_
unfoldable pub read_param : Bytes → (ProtocolStatus × Bytes) × Bytes
unfolding read_sized read_int
read_param [] = ((buffer_not_read, []), [])
read_param (c ∷ []) = ((buffer_not_read, []), c ∷ [])
read_param (c ∷ d ∷ src) =
    if c == dollar then read_sized (read_int (d ∷ src)) else ((error, []), c ∷ d ∷ src)

-- the loop of operator(): what it reads is pushed to the parameters, also those before an error
unfoldable pub read_params : ℕ → Bytes → List Bytes → ProtocolStatus × List Bytes
unfolding read_param
read_params zero src params = (ok, params)
read_params (suc n) src params =
    let ((s, arg), left) = read_param src in
    let rest = read_params n left (params ++ (arg ∷ [])) in
    elim s [ ok ↦ rest | buffer_not_read ↦ (buffer_not_read, params) | error ↦ (error, params) ]

-- operator() after the line with the count: the parameters of an earlier run are gone
unfoldable pub read_list : ℕ → ProtocolStatus × Bytes → ProtocolStatus × List Bytes
unfolding read_params
read_list n (ok, src) = read_params n src []
read_list n (s, src) = (s, [])

-- operator() after its first character
unfoldable pub read_counted : ℕ × Bytes → List Bytes → ProtocolStatus × List Bytes
unfolding read_list read_ln
read_counted (n, src) params =
    if n == 0 || ltb max_params n then (error, params) else read_list n (read_ln src)

-- operator()
unfoldable pub parse : Bytes → List Bytes → ProtocolStatus × List Bytes
unfolding read_counted read_int
parse [] params = (buffer_not_read, params)
parse (c ∷ []) params = (buffer_not_read, params)
parse (c ∷ d ∷ src) params =
    if c == star then read_counted (read_int (d ∷ src)) params else (error, params)
