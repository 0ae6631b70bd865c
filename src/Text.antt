-- ===== src/Text.antt =====
-- The parts of Rust's `str` that the runtime uses: `trim`, `to_ascii_lowercase`, `is_empty`, the
-- decimal print of an unsigned number (`format!("{}")`) and `parse::<u64>`.
pub mod Words
pub mod RoundTrip
use Prim.Native.Char.{Char, char, code, nul}
use Prim.Native.Nat.{compare, Ordering}
use Prim.Native.String.{String, ◌∷◌, [], compare as compare_text}
use gooselake.Base.{
  ℕ, zero, suc, ◌+◌, ◌-◌, ◌*◌, ◌/◌, ◌%◌, ◌<◌, ◌≡◌, refl, Bool, true, false, ◌&&◌, ◌||◌, Option,
  none, some, arith, leb, ltb, eqb, if◌then◌else◌,
}

-- Unicode's White_Space, which `char::is_whitespace` tests.
unfoldable pub is_whitespace : Char → Bool
is_whitespace c =
    let n = code c in
    (leb 9 n && leb n 13)
    || eqb n 32
    || eqb n 133
    || eqb n 160
    || eqb n 5760
    || (leb 8192 n && leb n 8202)
    || eqb n 8232
    || eqb n 8233
    || eqb n 8239
    || eqb n 8287
    || eqb n 12288

-- `left.cmp(right) != Greater` of two texts.
unfoldable pub text_le : String → String → Bool
text_le a b = elim (compare_text a b) [ Ordering.gt ↦ false | _ ↦ true ]

unfoldable pub is_empty : String → Bool
is_empty [] = true
is_empty (c ∷ s) = false

unfoldable pub trim_start : String → String
unfolding is_whitespace
trim_start [] = []
trim_start (c ∷ s) = let rest = trim_start s in if is_whitespace c then rest else c ∷ s

unfoldable pub trim_end : String → String
unfolding is_whitespace is_empty
trim_end [] = []
trim_end (c ∷ s) =
    let rest = trim_end s in if is_empty rest && is_whitespace c then [] else c ∷ rest

unfoldable pub trim : String → String
unfolding trim_start trim_end
trim s = trim_end (trim_start s)

scalar : (n : ℕ) (o : Ordering) → compare n 55296 ≡ o → Char
scalar n Ordering.lt e = char n (rw e tt)
scalar n Ordering.eq e = nul
scalar n Ordering.gt e = nul

-- The character of a number below 0xD800.
char_of : ℕ → Char
unfolding scalar
char_of n = scalar n (compare n 55296) refl

lower : Char → Char
unfolding char_of
lower c = if leb b'A' (code c) && leb (code c) b'Z' then char_of (code c + 32) else c

unfoldable pub to_ascii_lowercase : String → String
unfolding lower
to_ascii_lowercase [] = []
to_ascii_lowercase (c ∷ s) = lower c ∷ to_ascii_lowercase s

digit : ℕ → Char
unfolding char_of
digit n = char_of (b'0' + n % 10)

-- The decimal digits of `n` in front of `out`, nothing for 0, in at most `rounds` rounds; the
-- number itself is more than enough of them.
unfoldable pub digits : ℕ → ℕ → String → String
unfolding digit
digits zero n out = out
digits (suc rounds) n out =
    let longer = digits rounds (n / 10) (digit n ∷ out) in if eqb n 0 then out else longer

-- `n.to_string()`.
unfoldable pub decimal : ℕ → String
unfolding digits
decimal n = if eqb n 0 then "0" else digits n n ""

abbrev pub max_u64 : ℕ
max_u64 = 18446744073709551615

-- The value of the digits behind `n`; nothing on a character that is no digit, or past `u64::MAX`.
unfoldable pub scan : String → ℕ → Option ℕ
scan [] n = some n
scan (c ∷ s) n =
    let d = code c - b'0' in
    let rest = scan s (n * 10 + d) in
    if ltb (code c) b'0' || ltb b'9' (code c)
    then none
    else if ltb max_u64 (n * 10 + d)
    then none
    else rest

-- `value.parse::<u64>().ok()`, which takes one leading `+`.
unfoldable pub parse_u64 : String → Option ℕ
unfolding scan is_empty
parse_u64 [] = none
parse_u64 (c ∷ s) =
    if eqb (code c) b'+' then (if is_empty s then none else scan s 0) else scan (c ∷ s) 0

-- `value.rsplit('_').next()`: what stands behind the last underscore, or the whole text.
unfoldable pub last_segment_from : String → String → String
last_segment_from [] segment = segment
last_segment_from (c ∷ s) segment = last_segment_from s (if eqb (code c) b'_' then s else segment)

unfoldable pub last_segment : String → String
unfolding last_segment_from
last_segment s = last_segment_from s s

trim_test : trim " a b \n" ≡ "a b"
unfolding trim
trim_test = refl

lower_test : to_ascii_lowercase "DirecT-Z" ≡ "direct-z"
unfolding to_ascii_lowercase
lower_test = refl

decimal_test : decimal 1204 ≡ "1204"
unfolding decimal
decimal_test = refl

parse_test : parse_u64 (last_segment "dlv_team_0012") ≡ some 12
unfolding parse_u64 last_segment
parse_test = refl
