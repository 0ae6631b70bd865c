-- ===== src/Worktree/Paths/Safe.antt =====
-- The characters of the name that is derived from a repository's path.
use Prim.Native.Char.{Char, code}
use Prim.Native.String.{◌∷◌, []}
use gooselake.Base.{
  ℕ, ◌≤◌, String, ◌≡◌, ◌≢◌, refl, arith, Bool, true, false, ◌&&◌, leb, eqb, Bool-cases, inl, inr,
}
use gooselake.Text.{is_empty}
use gooselake.Worktree.Paths.{
  is_separator, is_underscore, is_kept, replace_chars, trim_start_underscores, trim_end_underscores,
  or_workspace, derive_unified_workspace_path,
}

abbrev Within : ℕ → ℕ → Char → Type 0
Within first last c = (first ≤ code c) × (code c ≤ last)

-- A digit, an ASCII letter, '-', '.' or '_', by its number.
pub data IsPlain (c : Char) : Type 0 where
  digit : Within 48 57 c → IsPlain c
  capital : Within 65 90 c → IsPlain c
  small : Within 97 122 c → IsPlain c
  dash : code c ≡ 45 → IsPlain c
  dot : code c ≡ 46 → IsPlain c
  underscore : code c ≡ 95 → IsPlain c

-- Every character of a text.
abbrev pub AllPlain : String → Type 0
AllPlain [] = Unit
AllPlain (c ∷ s) = IsPlain c × AllPlain s

is_kept-IsPlain : (c : Char) → is_kept c ≡ true → IsPlain c
unfolding is_kept
is_kept-IsPlain c kept = elim (Bool-cases (leb 48 (code c) && leb (code c) 57)) [
  | inl e ↦ digit (ground arith)
  | inr n ↦ elim (Bool-cases (leb 65 (code c) && leb (code c) 90)) [
    | inl e ↦ capital (ground arith)
    | inr n' ↦ elim (Bool-cases (leb 97 (code c) && leb (code c) 122)) [
      | inl e ↦ small (ground arith)
      | inr n'' ↦ elim (Bool-cases (eqb (code c) 45)) [
        | inl e ↦ dash (ground arith)
        | inr n3 ↦ elim (Bool-cases (eqb (code c) 95)) [
          | inl e ↦ underscore (ground arith)
          | inr n4 ↦ dot (ground arith)
        ]
      ]
    ]
  ]
]

underscore-plain : (s : String) → AllPlain s → AllPlain ("_" ∷ s)
underscore-plain s plain = (underscore refl, plain)

replace_chars-plain : (prev_sep : Bool) (s : String) → AllPlain (replace_chars prev_sep s)
unfolding replace_chars
replace_chars-plain prev_sep [] = tt
replace_chars-plain prev_sep (c ∷ s) =
    let after_sep = replace_chars-plain true s in
    let after = replace_chars-plain false s in
    elim (Bool-cases (is_separator c)) [
      | inl e ↦ elim (Bool-cases prev_sep) [
        | inl e' ↦ rw (e, e') after_sep
        | inr e' ↦
            rw (e, e')
              (underscore-plain ("_" ∷ replace_chars true s)
                (underscore-plain (replace_chars true s) after_sep))
      ]
      | inr e ↦ elim (Bool-cases (is_kept c)) [
        | inl e' ↦ rw (e, e') (is_kept-IsPlain c e', after)
        | inr e' ↦ rw (e, e') (underscore-plain (replace_chars false s) after)
      ]
    ]

trim_start-plain : (s : String) → AllPlain s → AllPlain (trim_start_underscores s)
unfolding trim_start_underscores
trim_start-plain [] plain = tt
trim_start-plain (c ∷ s) (here, rest) = elim (Bool-cases (is_underscore c)) [
  | inl e ↦ rw e (trim_start-plain s rest)
  | inr e ↦ rw e (here, rest)
]

trim_end-plain : (s : String) → AllPlain s → AllPlain (trim_end_underscores s)
unfolding trim_end_underscores
trim_end-plain [] plain = tt
trim_end-plain (c ∷ s) (here, rest) =
    elim (Bool-cases (is_empty (trim_end_underscores s) && is_underscore c)) [
      | inl e ↦ rw e tt
      | inr e ↦ rw e (here, trim_end-plain s rest)
    ]

is_not_empty : (c : Char) (s : String) → ◌≢◌ {A = String} (c ∷ s) []
is_not_empty c s e = cc

workspace-plain : AllPlain "workspace"
unfolding is_kept
workspace-plain = (
  is_kept-IsPlain "w" refl,
  (
    is_kept-IsPlain "o" refl,
    (
      is_kept-IsPlain "r" refl,
      (
        is_kept-IsPlain "k" refl,
        (
          is_kept-IsPlain "s" refl,
          (
            is_kept-IsPlain "p" refl,
            (is_kept-IsPlain "a" refl, (is_kept-IsPlain "c" refl, (is_kept-IsPlain "e" refl, tt))),
          ),
        ),
      ),
    ),
  ),
)

or_workspace-plain : (s : String) → AllPlain s → AllPlain (or_workspace s) × (or_workspace s ≢ "")
unfolding or_workspace is_empty
or_workspace-plain [] plain = (workspace-plain, is_not_empty _ _)
or_workspace-plain (c ∷ s) plain = (plain, is_not_empty c s)

-- Whatever the path of a repository: the name of its directory under root_dir is not empty, and each
-- of its characters is a digit, an ASCII letter, '-', '.' or '_', and so no separator.
pub derive_unified_workspace_path-plain :
    (repo_root : String)
    → AllPlain (derive_unified_workspace_path repo_root)
      × (derive_unified_workspace_path repo_root ≢ "")
unfolding derive_unified_workspace_path
derive_unified_workspace_path-plain repo_root =
    let replaced = replace_chars false repo_root in
    let started = trim_start_underscores replaced in
    or_workspace-plain (trim_end_underscores started)
      (trim_end-plain started (trim_start-plain replaced (replace_chars-plain false repo_root)))
