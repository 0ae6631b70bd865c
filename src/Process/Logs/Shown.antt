-- ===== src/Process/Logs/Shown.antt =====
-- How much of a log file is shown.
use Prim.Native.Char.{Char}
use Prim.Native.String.append
use gooselake.Base.{
  ℕ, zero, suc, ◌+◌, ◌-◌, ◌*◌, ◌≤◌, ◌<◌, String, ◌<>◌, ◌≡◌, refl, arith, Bool, true, false, ◌&&◌,
  List, [], ◌∷◌, ◌++◌, length, length-append, some, ltb, if◌then◌else◌, unwrap_or,
}
use gooselake.Text.Words.{byte_length, width, drop_bytes, replaced, lines}
use gooselake.Process.Logs.{
  shown_lines, has_gap, take, drop, cap_bytes, chunk_of, unlines, ProcessLogReadRequest, LogFile,
}
use gooselake.Process.Details.{ProcessDetails}

byte_length-append : (s t : String) → byte_length (s <> t) ≡ byte_length s + byte_length t
unfolding byte_length
byte_length-append String.[] t = rw (append.nil t) (omega arith)
byte_length-append (String.◌∷◌ c s) t =
    rw (append.cons c s t) (omega (arith, byte_length-append s t))

byte_length-replaced : (n : ℕ) (s : String) → byte_length (replaced n s) ≡ 3 * n + byte_length s
unfolding replaced byte_length width
byte_length-replaced zero s = omega arith
byte_length-replaced (suc n) s =
    omega (arith, byte_length-append "�" (replaced n s), byte_length-replaced n s, mark)
  where
    mark : byte_length "�" ≡ 3
    mark = refl

width_bounds : (c : Char) → (0 < width c) × (width c ≤ 4)
unfolding width
width_bounds c = ground arith

byte_length-drop_bytes :
    (n : ℕ) (s : String) → n ≤ byte_length s → byte_length (drop_bytes n s) + n ≤ byte_length s + 6
unfolding drop_bytes byte_length
byte_length-drop_bytes n String.[] h = omega arith
byte_length-drop_bytes n (String.◌∷◌ c s) h = ground (
  arith,
  width_bounds c,
  byte_length-drop_bytes (n - width c) s,
  byte_length-replaced (width c - n) s,
)

length-take-le : (n : ℕ) (xs : List String) → length (take n xs) ≤ n
unfolding take
length-take-le zero xs = omega arith
length-take-le (suc n) [] = omega arith
length-take-le (suc n) (x ∷ xs) = omega (arith, length-take-le n xs)

length-drop : (n : ℕ) (xs : List String) → length (drop n xs) ≡ length xs - n
unfolding drop
length-drop zero xs = omega arith
length-drop (suc n) [] = omega arith
length-drop (suc n) (x ∷ xs) = omega (arith, length-drop n xs)

length-dots : (gap : Bool) → length {A = String} (if gap then "..." ∷ [] else []) ≤ 1
length-dots true = omega arith
length-dots false = omega arith

-- A file of at most `tail` lines is shown whole, and its first `head` lines once more before it; of
-- any file, at most `head + tail` lines and a line of dots are shown.
pub shown_lines-bounds :
    (head tail : ℕ) (content : List String)
    → (length content ≤ tail → shown_lines head tail content ≡ take head content ++ content)
      × (length (shown_lines head tail content) ≤ head + tail + 1)
unfolding shown_lines has_gap
shown_lines-bounds head tail content = (whole, few)
  where
    whole : length content ≤ tail → shown_lines head tail content ≡ take head content ++ content
    whole h =
        let e : length content - tail ≡ 0 = omega arith in
        let g : (ltb 0 head && ltb head 0) ≡ false = ground arith in rw (e, g) refl

    few : length (shown_lines head tail content) ≤ head + tail + 1
    few =
        let dots : List String = if has_gap head tail content then "..." ∷ [] else [] in
        omega (
          arith,
          length-append (take head content) (dots ++ drop (length content - tail) content),
          length-append dots (drop (length content - tail) content),
          length-take-le head content,
          length-drop (length content - tail) content,
          length-dots (has_gap head tail content),
        )

cap_bytes-le : (n : ℕ) (out : String) → byte_length (cap_bytes (some n) out) ≤ n + 6
unfolding cap_bytes
cap_bytes-le n out = ground (arith, byte_length-drop_bytes (byte_length out - n) out)

-- With a limit of `n` bytes, a chunk has at most six bytes more, and counts its bytes.
pub chunk_of-bytes :
    (request : ProcessLogReadRequest) (d : ProcessDetails) (file : LogFile) (text : String) (n : ℕ)
    → request.max_bytes ≡ some n
    → let chunk = chunk_of request d file text in
      (chunk.bytes ≡ byte_length chunk.content) × (chunk.bytes ≤ n + 6)
unfolding chunk_of cap_bytes
chunk_of-bytes request d file text n e = (
  refl,
  rw e (
      cap_bytes-le n (
        unlines (
          shown_lines (unwrap_or request.head_lines 0) (unwrap_or request.tail_lines 80)
            (lines text)))),
)
