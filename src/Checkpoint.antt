-- ===== src/Checkpoint.antt =====
-- control-plane/src/sandbox/checkpoint.ts: what the save scripts print and how it is read, the runs
-- of the scripts in a sandbox, and the saved files on the host. A text is kept as its UTF-8 bytes, and
-- `decode_text` is `Buffer.toString`, which puts another character where the bytes are no UTF-8; the Bash scripts are names, and `exec` is the runner's stream of events for one run.
pub mod Output
pub mod Script
use dsh_yawn.Base.{
  ℕ, ◌+◌, ◌-◌, ◌%◌, ◌≡◌, refl, String, Bool, true, false, not, ◌&&◌, ◌||◌, Option, none, some, List,
  [], ◌∷◌, ◌++◌, eqb, leb, ltb, length, every, or_default, if◌then◌else◌,
}
use dsh_yawn.Exec.{Error, failure, Result, ok, err, Exec, pure, raise, lift, catch, ◌>>=◌, ◌>>◌}
use dsh_yawn.Records.{Bytes, Checkpoint}

abbrev pub newline : ℕ
newline = 10

abbrev pub take : ℕ → Bytes → Bytes
take n [] = []
take ℕ.zero (b ∷ bs) = []
take (ℕ.suc n) (b ∷ bs) = b ∷ take n bs

abbrev pub drop : ℕ → Bytes → Bytes
drop n [] = []
drop ℕ.zero (b ∷ bs) = b ∷ bs
drop (ℕ.suc n) (b ∷ bs) = drop n bs

-- The bytes before the first newline and those after it, if there is one.
unfoldable pub cut : Bytes → Option (Bytes × Bytes)
cut [] = none
cut (b ∷ bs) =
    if eqb b newline
    then some ([], bs)
    else elim (cut bs) [ none ↦ none | some (line, rest) ↦ some (b ∷ line, rest) ]

unfoldable pub is_hex : ℕ → Bool
is_hex b = (leb b'0' b && leb b b'9') || (leb b'a' b && leb b b'f')

is_digit : ℕ → Bool
is_digit b = leb b'0' b && leb b b'9'

-- `/^[0-9a-f]{40}$/`
unfoldable pub is_commit : Bytes → Bool
unfolding is_hex
is_commit bs = eqb (length bs) 40 && every is_hex bs

starts_with : Bytes → Bytes → Bool
starts_with bs [] = true
starts_with [] (p ∷ ps) = false
starts_with (b ∷ bs) (p ∷ ps) = eqb b p && starts_with bs ps

skip_digits : Bytes → Bytes
unfolding is_digit
skip_digits [] = []
skip_digits (b ∷ bs) = let rest = skip_digits bs in if is_digit b then rest else b ∷ bs

-- `\d+` and what must follow it.
digits_then : Bytes → Bytes → Bool
unfolding skip_digits starts_with
digits_then [] suffix = false
digits_then (b ∷ bs) suffix = is_digit b && starts_with (skip_digits bs) suffix

abbrev hash_v : Bytes
hash_v = b'#' ∷ b' ' ∷ b'v' ∷ []

abbrev git_bundle : Bytes
git_bundle =
    b' ' ∷ b'g' ∷ b'i' ∷ b't' ∷ b' ' ∷ b'b' ∷ b'u' ∷ b'n' ∷ b'd' ∷ b'l' ∷ b'e' ∷ newline ∷ []

-- `/^# v\d+ git bundle\n/` on the first 32 bytes.
unfoldable pub has_bundle_header : Bytes → Bool
unfolding starts_with digits_then
has_bundle_header bs =
    let head = take 32 bs in starts_with head hash_v && digits_then (drop 3 head) git_bundle

pub record GitCheckpoint : Type 0 where
  pub commit : Bytes
  pub branch : Option Bytes
  pub bundle : Bytes

abbrev pub branch_of : Bytes → Option Bytes
branch_of [] = none
branch_of (b ∷ bs) = some (b ∷ bs)

unexpected_output : {A : Type 0} → Result A
unexpected_output = err (failure "unexpected checkpoint output")

unfoldable pub check_save : Bytes → Bytes → Bytes → Result GitCheckpoint
unfolding is_commit has_bundle_header unexpected_output
check_save branch commit bundle =
    if not (is_commit commit) || (ltb 0 (length bundle) && not (has_bundle_header bundle))
    then unexpected_output
    else ok (record { commit = commit; branch = branch_of branch; bundle = bundle })

module _ (decode_text : Bytes → Bytes) where
  unfoldable pub second_line : Bytes → Option (Bytes × Bytes) → Result GitCheckpoint
  unfolding check_save
  second_line branch none = unexpected_output
  second_line branch (some (commit, bundle)) =
      check_save (decode_text branch) (decode_text commit) bundle

  unfoldable pub first_line : Option (Bytes × Bytes) → Result GitCheckpoint
  unfolding second_line cut
  first_line none = unexpected_output
  first_line (some (branch, rest)) = second_line branch (cut rest)

  -- Without two newlines the commit is empty, which no check passes.
  unfoldable pub parse_save_output : Bytes → Result GitCheckpoint
  unfolding first_line
  parse_save_output output = first_line (cut output)

abbrev ustar : Bytes
ustar = b'u' ∷ b's' ∷ b't' ∷ b'a' ∷ b'r' ∷ []

pub is_complete_tar : Bytes → Bool
unfolding starts_with
is_complete_tar tar =
    leb 1024 (length tar)
    && (eqb (length tar % 512) 0
        && (starts_with (drop 257 tar) ustar
            && every (λ b. eqb b 0) (drop (length tar - 1024) tar)))

pub check_artifacts : Bytes → Bytes → Result Bytes
unfolding is_complete_tar
check_artifacts (b ∷ []) tar =
    if eqb b b'0'
    then ok []
    else if eqb b b'1' && is_complete_tar tar
    then ok tar
    else err (failure "unexpected artifacts output")
check_artifacts _ tar = err (failure "unexpected artifacts output")

pub artifacts_line : Option (Bytes × Bytes) → Result Bytes
unfolding check_artifacts
artifacts_line none = err (failure "unexpected artifacts output")
artifacts_line (some (header, tar)) = check_artifacts header tar

pub parse_artifacts_output : Bytes → Result Bytes
unfolding artifacts_line cut
parse_artifacts_output output = artifacts_line (cut output)

pub data ScriptName : Type 0 where
  save_git save_artifacts restore_git restore_artifacts : ScriptName

pub data ExecEvent : Type 0 where
  stdout stderr : Bytes → ExecEvent
  exited : ℕ → ExecEvent
  other : ExecEvent
  broken : Error → ExecEvent

pub record ExecRequest : Type 0 where
  pub script : ScriptName
  pub env : List (String × Bytes)
  pub stdin : Bytes

-- The loop of `runScript` over the events, with the bytes so far and whether an exit was seen. A
-- stream that ends without an exit is an error; the failed script's stderr is not in the message.
unfoldable pub drain : ℕ → Bytes → Bool → List ExecEvent → Result Bytes
drain cap out true [] = ok out
drain cap out false [] = err (failure "checkpoint script ended without an exit status")
drain cap out done (stdout bytes ∷ es) =
    let rest = drain cap (out ++ bytes) done es in
    if ltb cap (length out + length bytes)
    then err (failure "checkpoint script output exceeds its limit")
    else rest
drain cap out done (stderr bytes ∷ es) = drain cap out done es
drain cap out done (exited code ∷ es) =
    let rest = drain cap out true es in
    if eqb code 0 then rest else err (failure "checkpoint script failed")
drain cap out done (other ∷ es) = drain cap out done es
drain cap out done (broken e ∷ es) = err e

pub record SavedCheckpoint : Type 0 where
  pub checkpoint : Checkpoint
  pub bundle : Bytes
  pub artifacts : Bytes
  pub artifacts_error : Option Error

abbrev pub max_bundle_bytes : ℕ
max_bundle_bytes = 67108864

abbrev pub max_artifacts_bytes : ℕ
max_artifacts_bytes = 67108864

abbrev pub restore_environment : Bytes → Checkpoint → Bytes → List (String × Bytes)
restore_environment commit checkpoint bundle =
    ("DSH_YAWN_CHECKPOINT_COMMIT", commit)
    ∷ ("DSH_YAWN_CHECKPOINT_BRANCH", or_default checkpoint.branch [])
    ∷ ("DSH_YAWN_CHECKPOINT_HAS_BUNDLE", (if ltb 0 (length bundle) then b'1' else b'0') ∷ [])
    ∷ []

-- `exec` runs a script on one runner; `artifacts_dir` is `artifactsDirectory(workspace)`.
module _ {E : Type 0} (exec : ExecRequest → E → List ExecEvent × E) (artifacts_dir : Bytes) where
  unfoldable pub run_script : ScriptName → List (String × Bytes) → Bytes → ℕ → Exec E Bytes
  unfolding drain
  run_script script env stdin cap e =
      let (events, e') = exec (record { script = script; env = env; stdin = stdin }) e in
      (drain cap [] false events, e')

  abbrev artifacts_env : List (String × Bytes)
  artifacts_env = ("DSH_YAWN_ARTIFACTS_DIR", artifacts_dir) ∷ []

  unfoldable pub read_artifacts : Exec E Bytes
  unfolding run_script
  read_artifacts = do
    output ← run_script save_artifacts artifacts_env [] max_artifacts_bytes
    lift (parse_artifacts_output output)

  -- The tar, or the reason the folder is left behind: this never throws.
  unfoldable pub collect_artifacts : Exec E (Result Bytes)
  unfolding read_artifacts
  collect_artifacts e = let (r, e') = read_artifacts e in (ok r, e')

  unfoldable pub with_artifacts : Checkpoint → Bytes → Result Bytes → SavedCheckpoint
  with_artifacts checkpoint bundle (ok tar) = record {
    checkpoint = checkpoint;
    bundle = bundle;
    artifacts = tar;
    artifacts_error = none;
  }
  with_artifacts checkpoint bundle (err e) = record {
    checkpoint = record checkpoint { artifacts_dropped = true };
    bundle = bundle;
    artifacts = [];
    artifacts_error = some e;
  }

  module _ (decode_text : Bytes → Bytes) where
    unfoldable pub git_half : Bool → Exec E (Checkpoint × Bytes)
    unfolding run_script
    git_half false = pure (record { commit = none; branch = none; artifacts_dropped = false }, [])
    git_half true = do
      output ← run_script save_git [] [] max_bundle_bytes
      git ← lift (parse_save_output decode_text output)
      pure (
        record { commit = some git.commit; branch = git.branch; artifacts_dropped = false },
        git.bundle,
      )

    unfoldable pub save_checkpoint : Bool → Exec E SavedCheckpoint
    unfolding git_half collect_artifacts with_artifacts
    save_checkpoint with_repository = do
      git ← git_half with_repository
      artifacts ← collect_artifacts
      pure (with_artifacts git.0 git.1 artifacts)

  restore_tree : Bool → Checkpoint → Option Bytes → Bytes → Exec E (Unit {0})
  unfolding run_script
  restore_tree false checkpoint commit bundle = pure tt
  restore_tree true checkpoint none bundle =
      raise (failure "the checkpoint of a repository session has no commit")
  restore_tree true checkpoint (some commit) bundle = do
    run_script restore_git (restore_environment commit checkpoint bundle) bundle 4096
    pure tt

  restore_folder : Bytes → Exec E (Unit {0})
  unfolding run_script
  restore_folder [] = pure tt
  restore_folder (b ∷ bs) = do run_script restore_artifacts artifacts_env (b ∷ bs) 4096; pure tt

  pub restore_checkpoint : Bool → Checkpoint → Bytes → Bytes → Exec E (Unit {0})
  unfolding restore_tree restore_folder
  restore_checkpoint with_repository checkpoint bundle artifacts = do
    restore_tree with_repository checkpoint checkpoint.commit bundle
    restore_folder artifacts
