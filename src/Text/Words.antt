-- ===== src/Text/Words.antt =====
-- More of what the source uses of Rust's `str`: `split_whitespace`, `lines`, the length in bytes,
-- and the last bytes of a text, read as UTF-8 with replacements.
use Prim.Native.Char.{Char, code}
use gooselake.Base.{
  ℕ, zero, suc, ◌+◌, ◌-◌, String, ◌<>◌, ◌≡◌, refl, Bool, false, ◌&&◌, not, List, [], ◌∷◌, Option,
  none, some, ltb, leb, eqb, if◌then◌else◌,
}
use gooselake.Text.{is_whitespace, is_empty}

abbrev push : Char → String
push c = String.◌∷◌ c String.[]

-- `word` is what was read of the present word.
words_from : String → String → List String
words_from String.[] word = if is_empty word then [] else word ∷ []
words_from (String.◌∷◌ c s) word =
    let rest = words_from s (if is_whitespace c then String.[] else word <> push c) in
    if is_whitespace c && not (is_empty word) then word ∷ rest else rest

unfoldable pub split_whitespace : String → List String
unfolding words_from is_whitespace is_empty
split_whitespace s = words_from s String.[]

push_char : Char → List String → List String
push_char c [] = push c ∷ []
push_char c (line ∷ lines) = String.◌∷◌ c line ∷ lines

starts_line : String → Bool
starts_line String.[] = false
starts_line (String.◌∷◌ c s) = eqb (code c) 10

-- `lines`: the texts before each line feed, without a carriage return right before it; a last
-- line without a line feed counts too.
unfoldable pub lines : String → List String
unfolding push_char starts_line
lines String.[] = []
lines (String.◌∷◌ c s) =
    let rest = lines s in
    if eqb (code c) 10
    then String.[] ∷ rest
    else if eqb (code c) 13 && starts_line s
    then rest
    else push_char c rest

-- `strip_prefix`.
unfoldable pub strip_prefix : String → String → Option String
strip_prefix String.[] s = some s
strip_prefix (String.◌∷◌ c p) String.[] = none
strip_prefix (String.◌∷◌ c p) (String.◌∷◌ d s) =
    let rest = strip_prefix p s in if eqb (code c) (code d) then rest else none

-- The number of bytes of a character in UTF-8.
unfoldable pub width : Char → ℕ
width c =
    if ltb (code c) 128
    then 1
    else if ltb (code c) 2048
    then 2
    else if ltb (code c) 65536
    then 3
    else 4

unfoldable pub byte_length : String → ℕ
unfolding width
byte_length String.[] = 0
byte_length (String.◌∷◌ c s) = width c + byte_length s

-- `n` replacement characters before `s`: what `from_utf8_lossy` makes of `n` continuation bytes.
unfoldable pub replaced : ℕ → String → String
replaced zero s = s
replaced (suc n) s = "�" <> replaced n s

-- `String::from_utf8_lossy(&s.as_bytes()[n..])`.
unfoldable pub drop_bytes : ℕ → String → String
unfolding width replaced
drop_bytes n String.[] = String.[]
drop_bytes n (String.◌∷◌ c s) =
    let rest = drop_bytes (n - width c) s in
    if eqb n 0 then String.◌∷◌ c s else if leb (width c) n then rest else replaced (width c - n) s

words_test : split_whitespace " ls  -l " ≡ "ls" ∷ "-l" ∷ []
unfolding split_whitespace
words_test = refl

lines_test : lines "a\r\n\nb" ≡ "a" ∷ "" ∷ "b" ∷ []
unfolding lines
lines_test = refl

drop_test : drop_bytes 1 "abc" ≡ "bc"
unfolding drop_bytes
drop_test = refl
