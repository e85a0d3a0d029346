-- ===== src/Notices.antt =====
-- control-plane/src/sandbox/manager/sandbox-notices.ts: the notice that a session's next prompt
-- carries when its sandbox came back from somewhere else.
pub mod Delivered
use dsh_yawn.Base.{String, Bool, true, false, Option, none, some, List, [], ◌∷◌, if◌then◌else◌}
use dsh_yawn.Dict.{Dict, get, put, delete}
use dsh_yawn.Records.{RunningRecord, Checkpoint, has_repository}
use dsh_yawn.NoticeTexts.{
  restore_text, restore_dropped_text, wake_text, wake_kept_text, no_repository_restore_text,
  no_repository_restore_dropped_text, no_repository_wake_text,
}

pub record SandboxNotice : Type 0 where
  pub text : String
  pub summary : String

-- A message of a prompt: a notice of this provider, or one that came from elsewhere.
pub data Message : Type 0 where
  notice_message : SandboxNotice → Message
  other_message : String → Message

-- What a step's listeners decide.
pub data Decision : Type 0 where
  reject : Decision
  enter : List Message → Decision

restored : String → SandboxNotice
restored text = record { text = text; summary = "Sandbox restored from a checkpoint" }

restored_without : String → SandboxNotice
restored_without text = record {
  text = text;
  summary = "Sandbox restored from a checkpoint without artifacts";
}

woken : String → SandboxNotice
woken text = record { text = text; summary = "Sandbox woke from hibernation" }

-- What happens to a session: a restore or a wake that completed, or a step of its agent, with the
-- decision of the listeners behind this one.
pub data NoticeEvent : Type 0 where
  after_restore : String → RunningRecord → Checkpoint → NoticeEvent
  after_wake : String → RunningRecord → Bool → NoticeEvent
  pre_step : String → Decision → NoticeEvent

-- Reading a notice consumes it.
pub take : Dict SandboxNotice → String → Option SandboxNotice × Dict SandboxNotice
take pending id = elim (get pending id) [
  | none ↦ (none, pending)
  | some notice ↦ (some notice, delete pending id)
]

pub prepend : Option SandboxNotice → List Message → Decision
prepend none messages = enter messages
prepend (some notice) messages = enter (notice_message notice ∷ messages)

-- A rejected step, and one with no messages, leaves the notice for the next.
pub on_pre_step : Dict SandboxNotice → String → Decision → Decision × Dict SandboxNotice
unfolding take prepend
on_pre_step pending id reject = (reject, pending)
on_pre_step pending id (enter []) = (enter [], pending)
on_pre_step pending id (enter (m ∷ ms)) =
    let (notice, rest) = take pending id in (prepend notice (m ∷ ms), rest)

module _ (artifacts_directory : String) where
  pub restore_notice : (repository dropped : Bool) → SandboxNotice
  unfolding restored restored_without
  restore_notice true true = restored_without (restore_dropped_text artifacts_directory)
  restore_notice true false = restored restore_text
  restore_notice false true =
      restored_without (no_repository_restore_dropped_text artifacts_directory)
  restore_notice false false = restored (no_repository_restore_text artifacts_directory)

  pub wake_notice : (repository keeps_filesystem : Bool) → SandboxNotice
  unfolding woken
  wake_notice repository true = woken wake_kept_text
  wake_notice true false = woken wake_text
  wake_notice false false = woken no_repository_wake_text

  pub on_restore : Dict SandboxNotice → String → RunningRecord → Checkpoint → Dict SandboxNotice
  on_restore pending id r checkpoint =
      put pending id
        (restore_notice (has_repository r.base.repository_url) checkpoint.artifacts_dropped)

  pub on_wake : Dict SandboxNotice → String → RunningRecord → Bool → Dict SandboxNotice
  on_wake pending id r keeps_filesystem =
      put pending id (wake_notice (has_repository r.base.repository_url) keeps_filesystem)

  -- The decisions that the steps of all sessions end with, in order.
  unfoldable pub run : Dict SandboxNotice → List NoticeEvent → List (String × Decision)
  run pending [] = []
  run pending (after_restore id r checkpoint ∷ es) = run (on_restore pending id r checkpoint) es
  run pending (after_wake id r keeps ∷ es) = run (on_wake pending id r keeps) es
  run pending (pre_step id decision ∷ es) =
      let (decided, rest) = on_pre_step pending id decision in (id, decided) ∷ run rest es
