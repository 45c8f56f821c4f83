-- ===== src/Url/Escape.antt =====
-- Percent escapes of `net/url`. A decoded sequence of bytes above 0x7F is read as UTF-8.
use Prim.Native.Nat.{compare, Ordering}
use Prim.Native.Char.{char, IsScalar}
use activitypub_core.Common.{
  ℕ, zero, suc, ◌+◌, ◌-◌, ◌*◌, ◌/◌, ◌%◌, String, Char, code, Bool, true, false, ◌&&◌, ◌||◌, Option,
  none, some, ◌≡◌, refl, arith, ltb, leb, nat_eq, if◌then◌else◌,
}
use activitypub_core.Common.Text.{replace_char}

abbrev pub is_letter : ℕ → Bool
is_letter c = (leb b'a' c && leb c b'z') || (leb b'A' c && leb c b'Z')

abbrev pub is_digit : ℕ → Bool
is_digit c = leb b'0' c && leb c b'9'

abbrev is_unreserved : ℕ → Bool
is_unreserved c =
    is_letter c || is_digit c || nat_eq c b'-' || nat_eq c b'_' || nat_eq c b'.' || nat_eq c b'~'

-- one of the characters of a text
unfoldable pub one_of : String → ℕ → Bool
one_of String.[] c = false
one_of (String.◌∷◌ d s) c = nat_eq (code d) c || one_of s c

pub low_IsScalar : (n : ℕ) → compare n 55296 ≡ Ordering.lt → IsScalar n
low_IsScalar n e = rw e tt

pub high_IsScalar :
    (n : ℕ)
    → compare 57343 n ≡ Ordering.lt
    → compare n 1114112 ≡ Ordering.lt
    → compare n 55296 ≡ Ordering.gt
    → IsScalar n
high_IsScalar n e f g = rw (g, e, f) tt

is_lt_cases : (o : Ordering) → Dec (o ≡ Ordering.lt)
is_lt_cases Ordering.lt = yes refl
is_lt_cases Ordering.eq = no (cc)
is_lt_cases Ordering.gt = no (cc)

pub above_gap : (n : ℕ) → compare 57343 n ≡ Ordering.lt → compare n 55296 ≡ Ordering.gt
above_gap n e = ground arith

-- the character of a number, U+FFFD where there is none
of_code : ℕ → Char
unfolding is_lt_cases
of_code n = elim (is_lt_cases (compare n 55296)) [
  | yes e ↦ char n (low_IsScalar n e)
  | no _ ↦ elim (is_lt_cases (compare 57343 n)) [
    | no _ ↦ "�"
    | yes e ↦ elim (is_lt_cases (compare n 1114112)) [
      | no _ ↦ "�"
      | yes f ↦ char n (high_IsScalar n e f (above_gap n e))
    ]
  ]
]

unhex : ℕ → Option ℕ
unhex c =
    if is_digit c
    then some (c - b'0')
    else if leb b'a' c && leb c b'f'
    then some (c - b'a' + 10)
    else if leb b'A' c && leb c b'F'
    then some (c - b'A' + 10)
    else none

unhex2 : Char → Char → Option ℕ
unfolding unhex
unhex2 a b = elim (unhex (code a)) [
  | none ↦ none
  | some h ↦ elim (unhex (code b)) [ none ↦ none | some l ↦ some (h * 16 + l) ]
]

abbrev emit : Char → Option String → Option String
emit c none = none
emit c (some s) = some (String.◌∷◌ c s)

-- what an unfinished UTF-8 sequence leaves
abbrev flush : ℕ → Option String → Option String
flush zero r = r
flush (suc n) r = emit "�" r

-- The bytes that follow a first byte of UTF-8, and the bits that it carries.
abbrev follow_count : ℕ → ℕ
follow_count v = if ltb v 0xE0 then 1 else if ltb v 0xF0 then 2 else 3

abbrev lead_bits : ℕ → ℕ
lead_bits v = if ltb v 0xE0 then v - 0xC0 else if ltb v 0xF0 then v - 0xE0 else v - 0xF0

-- One decoded byte, with `k need acc` for the rest of the text.
abbrev put_byte : ℕ → ℕ → ℕ → (ℕ → ℕ → Option String) → Option String
put_byte need acc v k =
    if ltb v 0x80
    then flush need (emit (of_code v) (k 0 0))
    else if ltb v 0xC0
    then elim need [
      | zero ↦ emit "�" (k 0 0)
      | suc zero ↦ emit (of_code (acc * 64 + (v - 0x80))) (k 0 0)
      | suc (suc n) ↦ k (suc n) (acc * 64 + (v - 0x80))
    ]
    else flush need (k (follow_count v) (lead_bits v))

-- `none` is the error of a `%` without two hexadecimal digits.
unescape_from : ℕ → ℕ → String → Option String
unfolding unhex2 of_code
unescape_from need acc String.[] = flush need (some "")
unescape_from need acc (String.◌∷◌ c String.[]) =
    if nat_eq (code c) b'%' then none else flush need (some (String.◌∷◌ c ""))
unescape_from need acc (String.◌∷◌ c (String.◌∷◌ a String.[])) =
    let rest = unescape_from 0 0 (String.◌∷◌ a String.[]) in
    if nat_eq (code c) b'%' then none else flush need (emit c rest)
unescape_from need acc (String.◌∷◌ c (String.◌∷◌ a (String.◌∷◌ b s))) =
    let plain = unescape_from 0 0 (String.◌∷◌ a (String.◌∷◌ b s)) in
    let escaped : Option String = elim (unhex2 a b) [
      | none ↦ none
      | some v ↦ put_byte need acc v (λ n x. unescape_from n x s)
    ] in
    if nat_eq (code c) b'%' then escaped else flush need (emit c plain)

-- `url.PathUnescape`, and `unescape` in the modes that change no other character
unfoldable pub unescape : String → Option String
unfolding unescape_from
unescape s = unescape_from 0 0 s

hex_digit : ℕ → Char
unfolding of_code
hex_digit n = of_code (if ltb n 10 then b'0' + n else b'A' + (n - 10))

escape_byte : ℕ → String → String
unfolding hex_digit
escape_byte v s =
    String.◌∷◌ "%" (String.◌∷◌ (hex_digit (v / 16)) (String.◌∷◌ (hex_digit (v % 16)) s))

-- the escapes of the UTF-8 bytes of a character, in front of `s`
escape_char : ℕ → String → String
unfolding escape_byte
escape_char c s =
    if ltb c 0x80
    then escape_byte c s
    else if ltb c 0x800
    then escape_byte (0xC0 + c / 64) (escape_byte (0x80 + c % 64) s)
    else if ltb c 0x10000
    then escape_byte (0xE0 + c / 4096)
        (escape_byte (0x80 + c / 64 % 64) (escape_byte (0x80 + c % 64) s))
    else escape_byte (0xF0 + c / 262144) (
        escape_byte (0x80 + c / 4096 % 64)
          (escape_byte (0x80 + c / 64 % 64) (escape_byte (0x80 + c % 64) s)))

escape_unless : (ℕ → Bool) → String → String
unfolding escape_char
escape_unless keep String.[] = ""
escape_unless keep (String.◌∷◌ c s) =
    let rest = escape_unless keep s in
    if keep (code c) then String.◌∷◌ c rest else escape_char (code c) rest

-- `url.PathEscape`: one segment
unfoldable pub path_escape : String → String
unfolding escape_unless one_of
path_escape s = escape_unless (λ c. is_unreserved c || one_of "$&+:=@" c) s

-- `url.QueryEscape`
unfoldable pub query_escape : String → String
unfolding escape_unless replace_char
query_escape s = replace_char " " "+" (escape_unless (λ c. is_unreserved c || nat_eq c 32) s)

-- `escape(path, encodePath)`
unfoldable pub escape_path : String → String
unfolding escape_unless one_of
escape_path s = escape_unless (λ c. is_unreserved c || one_of "$&+,/:;=@" c) s

-- `escape(host, encodeHost)`
unfoldable pub escape_host : String → String
unfolding escape_unless one_of
escape_host s = escape_unless (λ c. is_unreserved c || one_of "!$&'()*+,;=:[]<>\"" c) s

-- `validEncoded(path, encodePath)`
unfoldable pub valid_encoded : String → Bool
unfolding one_of
valid_encoded String.[] = true
valid_encoded (String.◌∷◌ c s) =
    (is_unreserved (code c) || one_of "!$&'()*+,;=:@[]%/" (code c)) && valid_encoded s

-- whether an escape, by its two digits, stands for `%` or for a byte above 0x7F
abbrev hides_no_ascii : Char → String → Bool
hides_no_ascii a String.[] = false
hides_no_ascii a (String.◌∷◌ b s) = elim (unhex2 a b) [
  | none ↦ false
  | some v ↦ leb 0x80 v || nat_eq v b'%'
]

-- No character of a host that its syntax forbids; a `%` must not hide one of ASCII.
unfoldable pub host_ok : String → Bool
unfolding one_of unhex2
host_ok String.[] = true
host_ok (String.◌∷◌ c String.[]) =
    leb 0x80 (code c) || is_unreserved (code c) || one_of "!$&'()*+,;=:[]<>\"" (code c)
host_ok (String.◌∷◌ c (String.◌∷◌ a s)) =
    (leb 0x80 (code c)
      || is_unreserved (code c)
      || one_of "!$&'()*+,;=:[]<>\"" (code c)
      || (nat_eq (code c) b'%' && hides_no_ascii a s))
    && host_ok (String.◌∷◌ a s)
