-- ===== src/Worktree/Paths.antt =====
-- crates/runtime-tools/src/worktree/core.rs: the names and paths of a new worktree.
pub mod Safe
use Prim.Native.Char.{Char, code}
use Prim.Native.String.{◌∷◌, []}
use gooselake.Base.{
  ℕ, String, ◌<>◌, ◌==◌, Bool, true, false, ◌&&◌, ◌||◌, Option, none, some, unwrap_or, eqb, leb,
  if◌then◌else◌,
}
use gooselake.Text.{trim, is_empty, to_ascii_lowercase}
use gooselake.Session.Transcript.{trimmed_non_empty}
use gooselake.World.{Env}

pub record PlannedWorktreePaths : Type 0 where
  pub repo_root : String
  pub worktree_root : String
  pub worktree_cwd : String
  pub branch_name : String
  pub worktree_name : String
  pub unified_workspace_path : String

-- '/' and '\'.
unfoldable pub is_separator : Char → Bool
is_separator c = eqb (code c) 47 || eqb (code c) 92

unfoldable pub is_underscore : Char → Bool
is_underscore c = eqb (code c) 95

-- An ASCII letter or digit, '-', '_' or '.'.
unfoldable pub is_kept : Char → Bool
is_kept c =
    let n = code c in
    (leb 48 n && leb n 57)
    || (leb 65 n && leb n 90)
    || (leb 97 n && leb n 122)
    || eqb n 45
    || eqb n 95
    || eqb n 46

-- The loop over the characters: `prev_sep` is whether the last one was a separator.
unfoldable pub replace_chars : Bool → String → String
unfolding is_separator is_kept
replace_chars prev_sep [] = ""
replace_chars prev_sep (c ∷ s) =
    let after_sep = replace_chars true s in
    let after = replace_chars false s in
    if is_separator c
    then (if prev_sep then after_sep else "_" ∷ "_" ∷ after_sep)
    else if is_kept c
    then c ∷ after
    else "_" ∷ after

-- `trim_matches('_')`.
unfoldable pub trim_start_underscores : String → String
unfolding is_underscore
trim_start_underscores [] = ""
trim_start_underscores (c ∷ s) =
    let rest = trim_start_underscores s in if is_underscore c then rest else c ∷ s

unfoldable pub trim_end_underscores : String → String
unfolding is_underscore is_empty
trim_end_underscores [] = ""
trim_end_underscores (c ∷ s) =
    let rest = trim_end_underscores s in if is_empty rest && is_underscore c then "" else c ∷ rest

unfoldable pub or_workspace : String → String
unfolding is_empty
or_workspace s = if is_empty s then "workspace" else s

unfoldable pub derive_unified_workspace_path : String → String
unfolding replace_chars trim_start_underscores trim_end_underscores or_workspace
derive_unified_workspace_path repo_root =
    or_workspace (trim_end_underscores (trim_start_underscores (replace_chars false repo_root)))

-- `branch_name.replace('/', "--")`.
unfoldable pub dash_slashes : String → String
dash_slashes [] = ""
dash_slashes (c ∷ s) =
    let rest = dash_slashes s in if eqb (code c) 47 then "-" ∷ "-" ∷ rest else c ∷ rest

unfoldable pub is_absolute : String → Bool
is_absolute [] = false
is_absolute (c ∷ s) = eqb (code c) 47

unfoldable pub ends_with_slash : String → Bool
ends_with_slash [] = false
ends_with_slash (c ∷ []) = eqb (code c) 47
ends_with_slash (c ∷ d ∷ s) = ends_with_slash (d ∷ s)

-- `Path::join`.
unfoldable pub join_path : String → String → String
unfolding is_absolute ends_with_slash is_empty
join_path a b =
    if is_absolute b || is_empty a then b else if ends_with_slash a then a <> b else a <> ("/" <> b)

module _ (env : Env) where
  -- Any word but one is the policy to retain.
  unfoldable pub normalize_deletion_policy : Option String → String
  unfolding trimmed_non_empty to_ascii_lowercase
  normalize_deletion_policy requested =
      if to_ascii_lowercase
          (unwrap_or (trimmed_non_empty requested) env.worktrees.deletion_policy_default)
        == "delete_on_last_claim"
      then "delete_on_last_claim"
      else "retain_on_last_claim"

  unfoldable pub plan_worktree_paths : String → String → Option String → PlannedWorktreePaths
  unfolding derive_unified_workspace_path dash_slashes join_path trimmed_non_empty
  plan_worktree_paths repo_root worktree_name branch_prefix =
      let branch =
        unwrap_or (trimmed_non_empty branch_prefix) "gg" <> ("/" <> trim worktree_name) in
      let unified = derive_unified_workspace_path repo_root in
      let root = join_path env.worktrees.root_dir unified in
      record {
        repo_root = trim repo_root;
        worktree_root = root;
        worktree_cwd = join_path root (dash_slashes branch);
        branch_name = branch;
        worktree_name = trim worktree_name;
        unified_workspace_path = unified;
      }
