-- ===== src/Text/RoundTrip.antt =====
-- Decimal prints, and what is read back from them.
use Prim.Native.Nat.{zero, suc}
use Prim.Native.Char.{code}
use Prim.Native.Nat.{compare, Ordering}
use Prim.Native.String.append
use Prim.Native.String.{◌∷◌, []}
use gooselake.Base.{
  ℕ, ◌+◌, ◌/◌, ◌%◌, ◌<◌, ◌≤◌, ◌≡◌, refl, ◌∙◌, false, some, arith, eqb, if◌then◌else◌, String, ◌<>◌,
  Bool-cases, inl, inr,
}
use gooselake.Text.Words.{strip_prefix}
use gooselake.Text.{
  scalar, char_of, digit, digits, decimal, scan, parse_u64, max_u64, last_segment,
  last_segment_from,
}

code-scalar : (n : ℕ) (o : Ordering) (e : compare n 55296 ≡ o) → n < 55296 → code (scalar n o e) ≡ n
unfolding scalar
code-scalar n Ordering.lt e h = refl
code-scalar n Ordering.eq e h = absurd (ground arith)
code-scalar n Ordering.gt e h = absurd (ground arith)

code-digit : (n : ℕ) → code (digit n) ≡ b'0' + n % 10
unfolding digit char_of
code-digit n = code-scalar (b'0' + n % 10) _ refl (omega arith)

-- Behind what stands before the last digit of `n`, that digit makes `n`.
scan-digit : (n : ℕ) (out : String) → n ≤ max_u64 → scan (digit n ∷ out) (n / 10) ≡ scan out n
unfolding scan
scan-digit n out h = ground (arith, code-digit n)

scan-digits :
    (rounds n : ℕ) (out : String)
    → n ≤ rounds
    → n ≤ max_u64
    → scan (digits rounds n out) 0 ≡ scan out n
unfolding digits
scan-digits zero n out h fits = let e : n ≡ 0 = omega arith in rw e refl
scan-digits (suc rounds) n out h fits = elim (Bool-cases (eqb n 0)) [
  | inl e ↦ let z : n ≡ 0 = ground arith in rw z refl
  | inr e ↦ rw e (
      scan-digits rounds (n / 10) (digit n ∷ out) (ground arith) (omega arith)
      ∙ scan-digit n out fits)
]

-- A text that starts with a character, and not with a plus sign.
abbrev IsPlain : String → Type 0
IsPlain [] = ⊥
IsPlain (c ∷ s) = eqb (code c) b'+' ≡ false

digit-IsPlain : (n : ℕ) (out : String) → IsPlain (digit n ∷ out)
digit-IsPlain n out = ground (arith, code-digit n)

digits-IsPlain : (rounds n : ℕ) (out : String) → IsPlain out → IsPlain (digits rounds n out)
unfolding digits
digits-IsPlain zero n out h = h
digits-IsPlain (suc rounds) n out h = elim (Bool-cases (eqb n 0)) [
  | inl e ↦ rw e h
  | inr e ↦ rw e (digits-IsPlain rounds (n / 10) (digit n ∷ out) (digit-IsPlain n out))
]

-- A positive number has a first digit.
positive-IsPlain : (rounds n : ℕ) → n ≤ rounds → eqb n 0 ≡ false → IsPlain (digits rounds n "")
unfolding digits
positive-IsPlain zero n h e = absurd (ground arith)
positive-IsPlain (suc rounds) n h e =
    rw e (digits-IsPlain rounds (n / 10) (digit n ∷ "") (digit-IsPlain n ""))

parse-scan : (s : String) → IsPlain s → parse_u64 s ≡ scan s 0
unfolding parse_u64
parse-scan [] h = absurd h
parse-scan (c ∷ s) h = rw h refl

pub parse_u64-decimal : (n : ℕ) → n ≤ max_u64 → parse_u64 (decimal n) ≡ some n
unfolding decimal scan parse_u64
parse_u64-decimal n h = elim (Bool-cases (eqb n 0)) [
  | inl e ↦ rw e (ground arith)
  | inr e ↦ rw e (
      parse-scan (digits n n "") (positive-IsPlain n n (omega arith) e)
      ∙ scan-digits n n "" (omega arith) h)
]

-- No underscore.
abbrev IsUnmarked : String → Type 0
IsUnmarked [] = Unit
IsUnmarked (c ∷ s) = (eqb (code c) b'_' ≡ false) × IsUnmarked s

digits-IsUnmarked :
    (rounds n : ℕ) (out : String) → IsUnmarked out → IsUnmarked (digits rounds n out)
unfolding digits
digits-IsUnmarked zero n out h = h
digits-IsUnmarked (suc rounds) n out h = elim (Bool-cases (eqb n 0)) [
  | inl e ↦ rw e h
  | inr e ↦
      rw e (digits-IsUnmarked rounds (n / 10) (digit n ∷ out) (ground (arith, code-digit n), h))
]

decimal-IsUnmarked : (n : ℕ) → IsUnmarked (decimal n)
unfolding decimal
decimal-IsUnmarked n = elim (Bool-cases (eqb n 0)) [
  | inl e ↦ rw e (refl, tt)
  | inr e ↦ rw e (digits-IsUnmarked n n "" tt)
]

last_segment_from-IsUnmarked :
    (s segment : String) → IsUnmarked s → last_segment_from s segment ≡ segment
unfolding last_segment_from
last_segment_from-IsUnmarked [] segment h = refl
last_segment_from-IsUnmarked (c ∷ s) segment (h, hs) =
    rw h (last_segment_from-IsUnmarked s segment hs)

-- What `last_segment_from` holds after a prefix `p` of the text.
abbrev after : String → String → String → String
after [] s segment = segment
after (c ∷ p) s segment = after p s (if eqb (code c) b'_' then p <> s else segment)

last_segment_from-append :
    (p s segment : String)
    → last_segment_from (p <> s) segment ≡ last_segment_from s (after p s segment)
unfolding last_segment_from
last_segment_from-append [] s segment = rw (append.nil s) refl
last_segment_from-append (c ∷ p) s segment =
    rw (append.cons c p s)
      (last_segment_from-append p s (if eqb (code c) b'_' then p <> s else segment))

last_segment-append :
    (p s : String)
    → IsUnmarked s
    → ((t : String) → after p s t ≡ "" <> s)
    → last_segment (p <> s) ≡ s
unfolding last_segment
last_segment-append p s h marked =
    last_segment_from-append p s (p <> s)
    ∙ last_segment_from-IsUnmarked s (after p s (p <> s)) h
    ∙ marked (p <> s)
    ∙ append.nil s

-- The number behind each prefix that ids have is read back.
pub last_segment-decimal :
    (n : ℕ)
    → (last_segment ("team_" <> decimal n) ≡ decimal n)
      × (last_segment ("msg_" <> decimal n) ≡ decimal n)
      × (last_segment ("dlv_" <> decimal n) ≡ decimal n)
last_segment-decimal n =
    let s = decimal n in
    let plain = decimal-IsUnmarked n in
    (
      last_segment-append "team_" s plain (λ t. refl),
      last_segment-append "msg_" s plain (λ t. refl),
      last_segment-append "dlv_" s plain (λ t. refl),
    )

pub strip_prefix-append : (p s : String) → strip_prefix p (p <> s) ≡ some s
unfolding strip_prefix
strip_prefix-append [] s = rw (append.nil s) refl
strip_prefix-append (c ∷ p) s = rw (append.cons c p s) (ground (arith, strip_prefix-append p s))
