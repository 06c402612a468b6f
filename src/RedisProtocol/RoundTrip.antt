-- ===== src/RedisProtocol/RoundTrip.antt =====
-- RedisProtocolParser against RedisProtocol::Response::Strings, of net/protocol.
use hm.Prelude.{
  ℕ, zero, suc, ◌^◌, ◌≤◌, ◌<◌, List, [], ◌∷◌, ◌++◌, true, false, ltb, ◌==◌, ◌||◌, length,
  length-append, take-append, drop-append, append-nil, append_assoc, All, ◌≡◌, refl, ◌∙◌, ap, arith,
}
use hm.Bytes.{Bytes}
use hm.Decimal.{IsDigit, atoi-to_string, to_chars-All, to_string, length-to_chars}
use hm.RedisProtocol.Parser.{
  ok, dollar, star, endln, max_params, max_param_size, is_int_char, copy_int, read_int, read_ln,
  close_param, read_data, read_sized, read_param, read_params, read_list, read_counted, parse,
}
use hm.RedisProtocol.Response.{strings, response_string, response_strings, write}

digit-is_int_char : (c : ℕ) → IsDigit c → is_int_char c ≡ true
digit-is_int_char c h = ground (arith, h)

copy_int-digits :
    (room : ℕ) (cs : Bytes) (rest : Bytes)
    → All IsDigit cs
    → length cs ≤ room
    → copy_int room (cs ++ (endln ++ rest)) ≡ (cs, endln ++ rest)
unfolding copy_int
copy_int-digits zero [] rest h e = refl
copy_int-digits zero (c ∷ cs) rest h e = absurd (omega arith)
copy_int-digits (suc room) [] rest h e = refl
copy_int-digits (suc room) (c ∷ cs) rest h e =
    rw (copy_int-digits room cs rest h.1 (omega (arith, e)), digit-is_int_char c h.0)

read_int-to_string :
    (n : ℕ) (rest : Bytes)
    → n < 2 ^ 31
    → read_int (to_string n ++ (endln ++ rest)) ≡ (n, endln ++ rest)
unfolding read_int
read_int-to_string n rest h =
    let e = length-to_chars 20 9 n (omega (arith, h)) in
    rw (
      copy_int-digits 16 (to_string n) rest (to_chars-All 20 n) (omega (arith, e)),
      atoi-to_string n h,
    )

abbrev pub IsParam : Bytes → Type 0
IsParam msg = length msg ≤ max_param_size

not_short : (n : ℕ) (src : Bytes) → n ≤ length src → ltb (length src) n ≡ false
not_short n src h = ground (arith, h)

fits : (n : ℕ) → n ≤ max_param_size → ltb max_param_size n ≡ false
fits n h = ground (arith, h)

counted : (n : ℕ) → 0 < n → n ≤ max_params → (n == 0 || ltb max_params n) ≡ false
counted n l h = ground (arith, l, h)

some_length : (a b : Bytes) → 0 < length (a ++ (endln ++ b))
some_length a b = omega (arith, length-append a (endln ++ b))

read_ln-endln : (rest : Bytes) → read_ln (endln ++ rest) ≡ (ok, rest)
unfolding read_ln
read_ln-endln rest = refl

read_param-dollar :
    (src : Bytes) → 0 < length src → read_param (dollar ∷ src) ≡ read_sized (read_int src)
unfolding read_param
read_param-dollar [] h = absurd (omega (arith, h))
read_param-dollar (c ∷ src) h = refl

parse-star :
    (src : Bytes) (params : List Bytes)
    → 0 < length src
    → parse (42 ∷ src) params ≡ read_counted (read_int src) params
unfolding parse
parse-star [] params h = absurd (omega (arith, h))
parse-star (c ∷ src) params h = refl

read_data-append :
    (msg rest : Bytes) → read_data (length msg) (ok, msg ++ (endln ++ rest)) ≡ ((ok, msg), rest)
unfolding read_data read_ln close_param
read_data-append msg rest = rw (
  not_short (length msg) (msg ++ (endln ++ rest))
      (omega (arith, length-append msg (endln ++ rest))),
  take-append msg (endln ++ rest),
  drop-append msg (endln ++ rest),
)

response_string-append :
    (msg rest : Bytes)
    → response_string msg ++ rest
      ≡ dollar ∷ (to_string (length msg) ++ (endln ++ (msg ++ (endln ++ rest))))
unfolding response_string
response_string-append msg rest =
    ap (λ t. dollar ∷ t)
      (append_assoc (to_string (length msg)) (endln ++ (msg ++ endln)) rest
        ∙ ap (λ t. to_string (length msg) ++ (endln ++ t)) (append_assoc msg endln rest))

-- readParam_ reads what responceStringNR__ wrote, whatever follows it.
pub read_param-response_string :
    (msg rest : Bytes)
    → length msg ≤ max_param_size
    → read_param (response_string msg ++ rest) ≡ ((ok, msg), rest)
unfolding read_sized read_ln
read_param-response_string msg rest h =
    rw
      (
        response_string-append msg rest,
        read_param-dollar (to_string (length msg) ++ (endln ++ (msg ++ (endln ++ rest))))
            (some_length (to_string (length msg)) (msg ++ (endln ++ rest))),
        read_int-to_string (length msg) (msg ++ (endln ++ rest)) (omega (arith, h)),
        fits (length msg) h,
      )
      (read_data-append msg rest)

read_params-suc :
    (n : ℕ) (src arg left : Bytes) (params : List Bytes)
    → read_param src ≡ ((ok, arg), left)
    → read_params (suc n) src params ≡ read_params n left (params ++ (arg ∷ []))
unfolding read_params
read_params-suc n src arg left params e = simp (e, read_params)

read_params-response_strings :
    (msgs params : List Bytes) (rest : Bytes)
    → All IsParam msgs
    → read_params (length msgs) (response_strings msgs ++ rest) params ≡ (ok, params ++ msgs)
unfolding response_strings read_params
read_params-response_strings [] params rest h = rw (append-nil params)
read_params-response_strings (msg ∷ msgs) params rest h =
    let left = response_strings msgs ++ rest in
    ap (λ t. read_params (suc (length msgs)) t params)
      (append_assoc (response_string msg) (response_strings msgs) rest)
    ∙ read_params-suc (length msgs) (response_string msg ++ left) msg left params
        (read_param-response_string msg left h.0)
    ∙ read_params-response_strings msgs (params ++ (msg ∷ [])) rest h.1
    ∙ ap (λ t. (ok, t)) (append_assoc params (msg ∷ []) msgs)

-- The parser reads the parameters that the reply class Strings wrote, as it wrote them, whatever
-- follows in the buffer and whatever was parsed before, if there are 1 to 255 of them, each below
-- 2 ^ 28 bytes.
pub parse-write :
    (msgs params : List Bytes) (rest : Bytes)
    → 0 < length msgs
    → length msgs ≤ max_params
    → All IsParam msgs
    → parse (write (strings msgs) ++ rest) params ≡ (ok, msgs)
unfolding write read_counted read_list read_ln
parse-write msgs params rest low high h =
    let tail = response_strings msgs in
    ap (λ t. parse (star ∷ t) params) (append_assoc (to_string (length msgs)) (endln ++ tail) rest)
    ∙ parse-star (to_string (length msgs) ++ (endln ++ (tail ++ rest))) params
        (some_length (to_string (length msgs)) (tail ++ rest))
    ∙ ap (λ t. read_counted t params)
        (read_int-to_string (length msgs) (tail ++ rest) (omega (arith, high)))
    ∙ rw (counted (length msgs) low high) (read_params-response_strings msgs [] rest h)
