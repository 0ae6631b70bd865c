-- ===== src/Process/Output/Progress.antt =====
-- The limit, the count and the file of a stream, over chunks that are written one after another.
use gooselake.Base.{
  ℕ, zero, suc, ◌+◌, ◌-◌, ◌≤◌, String, ◌≡◌, refl, ◌∙◌, ap, sym, Bool, ◌||◌, List, [], ◌∷◌, ◌++◌,
  Option, none, some, ltb, leb, if◌then◌else◌, length, length-append, arith, Bool-cases, inl, inr,
}
use mathlib.Core.List.{append_assoc, append-nil}
use gooselake.Map
use gooselake.Process.{ManagedProcess, Manager}
use gooselake.Process.Logs.{take}
use gooselake.Process.Output.{Stream, used_bytes, is_truncated, file_at, to_write}

-- All that was read.
abbrev pub concat : List (List ℕ) → List ℕ
concat [] = []
concat (chunk ∷ chunks) = chunk ++ concat chunks

-- What a stream's pump has done: the bytes counted, whether output was dropped, and the file.
pub record Progress : Type 0 where
  pub limit : ℕ
  pub counted : Option (ℕ × Bool)
  pub file : List ℕ

abbrev pub counts : Stream → Option ManagedProcess → Option (ℕ × Bool)
counts stream none = none
counts stream (some p) = some (used_bytes stream p, is_truncated stream p)

abbrev pub progress : Stream → String → String → Manager → Progress
progress stream id path m = record {
  limit = m.config.max_output_bytes_per_process;
  counted = counts stream (Map.get id m.objects);
  file = file_at path m;
}

-- One chunk: as much as the limit leaves room for is written.
abbrev write_counted : List ℕ → Progress → Option (ℕ × Bool) → Progress
write_counted chunk v none = v
write_counted chunk v (some (used, dropped)) =
    let n = to_write v.limit used (length chunk) in
    record v {
      counted = some (used + n, ltb n (length chunk) || dropped);
      file = v.file ++ take n chunk;
    }

abbrev pub write : List ℕ → Progress → Progress
write chunk v = write_counted chunk v v.counted

abbrev pub write_all : List (List ℕ) → Progress → Progress
write_all [] v = v
write_all (chunk ∷ chunks) v = write_all chunks (write chunk v)

pub take-all : (n : ℕ) (xs : List ℕ) → length xs ≤ n → take n xs ≡ xs
unfolding take
take-all zero [] h = refl
take-all (suc n) [] h = refl
take-all zero (x ∷ xs) h = absurd (omega arith)
take-all (suc n) (x ∷ xs) h = ap (λ ys. x ∷ ys) (take-all n xs (omega arith))

take-append : (n : ℕ) (xs ys : List ℕ) → take n (xs ++ ys) ≡ take n xs ++ take (n - length xs) ys
unfolding take
take-append zero [] ys = refl
take-append (suc n) [] ys = let e : suc n - 0 ≡ suc n = omega arith in rw e refl
take-append zero (x ∷ xs) ys = let e : 0 - suc (length xs) ≡ 0 = omega arith in rw e refl
take-append (suc n) (x ∷ xs) ys =
    let e : suc n - suc (length xs) ≡ n - length xs = omega arith in
    rw e (ap (λ zs. x ∷ zs) (take-append n xs ys))

take-to_write :
    (limit used : ℕ) (chunk : List ℕ)
    → take (to_write limit used (length chunk)) chunk ≡ take (limit - used) chunk
unfolding to_write
take-to_write limit used chunk = elim (Bool-cases (leb (length chunk) (limit - used))) [
  | inl e ↦ rw e (take-all _ chunk (omega arith) ∙ sym (take-all _ chunk (ground arith)))
  | inr e ↦ rw e refl
]

pub length-take :
    (n : ℕ) (xs : List ℕ) → length (take n xs) ≡ (if leb (length xs) n then length xs else n)
unfolding take
length-take zero [] = refl
length-take (suc n) [] = ground arith
length-take zero (x ∷ xs) = ground arith
length-take (suc n) (x ∷ xs) = ground (arith, length-take n xs)

pub Progress-ext :
    {limit u u' : ℕ} {d d' : Bool} {f f' : List ℕ}
    → u ≡ u'
    → d ≡ d'
    → f ≡ f'
    → ◌≡◌ {A = Progress}
        (record { limit = limit; counted = some (u, d); file = f })
        (record { limit = limit; counted = some (u', d'); file = f' })
Progress-ext {limit} p q r = λ i. record { limit = limit; counted = some (p i, q i); file = r i }

-- All chunks, at once.
pub write_all-closed :
    (chunks : List (List ℕ)) (limit used : ℕ) (dropped : Bool) (file : List ℕ)
    → used ≤ limit
    → write_all chunks (record { limit = limit; counted = some (used, dropped); file = file })
      ≡ record {
        limit = limit;
        counted = some (
          used + to_write limit used (length (concat chunks)),
          ltb (limit - used) (length (concat chunks)) || dropped,
        );
        file = file ++ take (limit - used) (concat chunks);
      }
unfolding to_write
write_all-closed [] limit used dropped file h =
    Progress-ext (ground arith) (ground arith)
      (rw (take-all (limit - used) [] (omega arith), append-nil) refl)
write_all-closed (chunk ∷ chunks) limit used dropped file h =
    let n = to_write limit used (length chunk) in
    let size = length-append chunk (concat chunks) in
    let rest : take (limit - (used + n)) (concat chunks)
        ≡ take (limit - used - length chunk) (concat chunks) =
      ap (λ k. take k (concat chunks)) (ground arith) in
    write_all-closed chunks limit (used + n) (ltb n (length chunk) || dropped)
      (file ++ take n chunk) (ground arith)
    ∙ Progress-ext (ground (arith, size)) (ground (arith, size)) (
        rw
          (
            take-to_write limit used chunk,
            append_assoc,
            take-append (limit - used) chunk (concat chunks),
            rest,
          )
          refl)
