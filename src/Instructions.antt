-- ===== src/Instructions.antt =====
-- control-plane/src/instructions/instruction-store.ts: the instructions that the settings page edits,
-- one text for all sessions and one per workspace. One write of the file is a parameter, as in the
-- session store.
pub mod Limit
use Prim.Native.String.{len}
use dsh_yawn.Base.{
  ℕ, ◌+◌, String, Bool, true, false, not, ◌&&◌, Option, none, some, List, [], ◌∷◌, every, eqb, leb,
  or_default, if◌then◌else◌, ◌==◌,
}
use dsh_yawn.Dict.{Dict, get, put, delete, values}
use dsh_yawn.Exec.{Error, failure, Result, ok, err}
use dsh_yawn.Codes.{codes, is_space}

abbrev pub max_instructions_bytes : ℕ
max_instructions_bytes = 65536

pub record InstructionFile : Type 0 where
  pub global : String
  pub workspaces : Dict String

-- `broken` is the error of the first write that failed: the chain of writes stays rejected with it.
pub record InstructionStore : Type 0 where
  pub state : InstructionFile
  pub disk : Option InstructionFile
  pub broken : Option Error

unfoldable pub fresh : InstructionStore
fresh = record { state = record { global = ""; workspaces = [] }; disk = none; broken = none }

-- A file as it was read, with none where a field is missing or of another type.
pub record StoredInstructions : Type 0 where
  pub version : Option ℕ
  pub global : Option String
  pub workspaces : Option (Dict (Option String))

-- `content.trim() === "" ? "" : content`
unfoldable pub normalize_content : String → String
normalize_content content = if every is_space (codes content) then "" else content

unfoldable pub within_limit : String → String → Bool
within_limit global workspace = leb (len global + len workspace) max_instructions_bytes

over_limit : {A : Type 0} → Result A
over_limit = err (failure "global and workspace instructions may total at most 65,536 UTF-8 bytes")

bad_format : {A : Type 0} → Result A
bad_format = err (failure "instruction file has an unsupported format")

with_entry : String → Option String → Option (Dict String) → Option (Dict String)
with_entry url (some content) (some rest) = some ((url, content) ∷ rest)
with_entry url _ _ = none

pub texts_only : Dict (Option String) → Option (Dict String)
unfolding with_entry
texts_only [] = some []
texts_only ((url, content) ∷ entries) = with_entry url content (texts_only entries)

pub check_limits : String → Option (Dict String) → Result InstructionFile
unfolding bad_format over_limit
check_limits global none = bad_format
check_limits global (some workspaces) =
    if every (within_limit global) (values workspaces)
    then ok (record { global = global; workspaces = workspaces })
    else over_limit

pub check_fields : Bool → Option String → Option (Dict (Option String)) → Result InstructionFile
unfolding bad_format
check_fields true (some global) (some workspaces) = check_limits global (texts_only workspaces)
check_fields _ _ _ = bad_format

pub parse_instruction_file : StoredInstructions → Result InstructionFile
parse_instruction_file file =
    check_fields (elim file.version [ none ↦ false | some v ↦ eqb v 1 ]) file.global file.workspaces

pub started : Result InstructionFile → Result InstructionStore
started (err e) = err e
started (ok file) = ok (record { state = file; disk = some file; broken = none })

-- `file` is what reading came to: an error other than a missing file is thrown.
unfoldable pub initialize : Result (Option StoredInstructions) → Result InstructionStore
unfolding started fresh parse_instruction_file
initialize (err e) = err e
initialize (ok none) = ok fresh
initialize (ok (some file)) = started (parse_instruction_file file)

global_text : InstructionStore → String
global_text s = s.state.global

workspace_text : InstructionStore → String → String
workspace_text s url = or_default (get s.state.workspaces url) ""

unfoldable pub placed : Dict String → String → String → Dict String
placed workspaces url content =
    if content == "" then delete workspaces url else put workspaces url content

module _ {E : Type 0} (write : E → Option Error × E) where
  unfoldable pub attempt :
      InstructionStore → Option Error × E → Result (Unit {0}) × InstructionStore × E
  attempt s (none, e) = (ok tt, record s { disk = some s.state }, e)
  attempt s (some x, e) = (err x, record s { broken = some x }, e)

  unfoldable pub persist : InstructionStore → E → Result (Unit {0}) × InstructionStore × E
  unfolding attempt
  persist s e = elim s.broken [ some x ↦ (err x, s, e) | none ↦ attempt s (write e) ]

  unfoldable pub set_global :
      InstructionStore → String → E → Result (Unit {0}) × InstructionStore × E
  unfolding over_limit
  set_global s content e =
      let normalized = normalize_content content in
      if every (within_limit normalized) (values s.state.workspaces)
      then persist (record s { state = record s.state { global = normalized } }) e
      else (over_limit, s, e)

  unfoldable pub set_workspace :
      InstructionStore → String → String → E → Result (Unit {0}) × InstructionStore × E
  unfolding over_limit
  set_workspace s url content e =
      let normalized = normalize_content content in
      if within_limit s.state.global normalized
      then persist
          (record s {
            state = record s.state { workspaces = placed s.state.workspaces url normalized };
          })
          e
      else (over_limit, s, e)
