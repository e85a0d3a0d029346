-- ===== src/Examples/Notes.antt =====
-- Instructions that are edited on a host that started without a file.
use dsh_yawn.Base.{ℕ, ◌+◌, ◌≤◌, ◌≡◌, refl, none, some, [], ◌∷◌, Option}
use dsh_yawn.Dict.{get, put, delete}
use dsh_yawn.Exec.{Error, ok}
use dsh_yawn.Codes.{codes, is_space}
use dsh_yawn.Instructions.{
  max_instructions_bytes, InstructionStore, fresh, initialize, set_global, set_workspace, placed,
  persist, attempt, normalize_content, within_limit,
}
use dsh_yawn.Instructions.Limit.{edit_all, global_set, workspace_set, edit_all-limit}
use Prim.Native.String.{len}

abbrev write : ℕ → Option Error × ℕ
write e = (none, e)

abbrev empty : InstructionStore
empty = record { state = record { global = ""; workspaces = [] }; disk = none; broken = none }

empty-initialize : initialize (ok none) ≡ ok empty
unfolding initialize fresh
empty-initialize = refl

edits-held :
    get
      (edit_all write
        (empty, 0)
        (workspace_set "r" "test" ∷ global_set "be brief" ∷ [])).0.state.workspaces
      "r"
    ≡ some "test"
unfolding get put delete set_global set_workspace placed persist attempt normalize_content
    within_limit codes is_space
edits-held = refl

edit_all-limit_example :
    len
        (edit_all write
          (empty, 0)
          (workspace_set "r" "test" ∷ global_set "be brief" ∷ [])).0.state.global
      + len "test"
    ≤ max_instructions_bytes
edit_all-limit_example =
    edit_all-limit write (ok none) empty 0 (workspace_set "r" "test" ∷ global_set "be brief" ∷ [])
      "r" "test" empty-initialize edits-held
