-- ===== src/Notices/Delivered.antt =====
-- Which prompts carry a notice, told session by session.
use dsh_yawn.Base.{
  ◌≡◌, refl, ap, String, Option, none, some, List, [], ◌∷◌, keep, if◌then◌else◌, ◌==◌, arith,
  eq_iff, ◌∙◌,
}
use dsh_yawn.Dict.{Dict, get, get-put, get-delete, get-empty}
use dsh_yawn.Records.{has_repository}
use dsh_yawn.Notices.{
  SandboxNotice, Decision, reject, enter, NoticeEvent, after_restore, after_wake, pre_step, take,
  prepend, on_pre_step, restore_notice, wake_notice, on_restore, on_wake, run,
}

-- The notice that is due after a step: one that entered with messages took it along.
abbrev pub due_after : Option SandboxNotice → Decision → Option SandboxNotice
due_after due (enter (m ∷ ms)) = none
due_after due decision = due

-- What a step's decision becomes.
abbrev pub carrying : Option SandboxNotice → Decision → Decision
carrying due (enter (m ∷ ms)) = prepend due (m ∷ ms)
carrying due decision = decision

module _ (artifacts_directory : String) where
  -- The decisions of one session's steps: `due` is the notice of its last restore or wake, until a
  -- prompt carries it.
  abbrev pub told : String → Option SandboxNotice → List NoticeEvent → List (String × Decision)
  told id due [] = []
  told id due (after_restore j r checkpoint ∷ es) =
      told id
        (if j == id
          then some (
              restore_notice artifacts_directory (has_repository r.base.repository_url)
                checkpoint.artifacts_dropped)
          else due)
        es
  told id due (after_wake j r keeps ∷ es) =
      told id
        (if j == id
          then some (wake_notice artifacts_directory (has_repository r.base.repository_url) keeps)
          else due)
        es
  told id due (pre_step j decision ∷ es) =
      let here = told id (due_after due decision) es in
      let elsewhere = told id due es in
      if j == id then (j, carrying due decision) ∷ here else elsewhere

on_pre_step-get :
    (pending : Dict SandboxNotice) (j id : String) (decision : Decision)
    → get (on_pre_step pending j decision).1 id
      ≡ (if j == id then due_after (get pending id) decision else get pending id)
unfolding on_pre_step take
on_pre_step-get pending j id reject = ground arith
on_pre_step-get pending j id (enter []) = ground arith
on_pre_step-get pending j id (enter (m ∷ ms)) = ground (arith, eq_iff j id, get-delete pending j id)

on_pre_step-carrying :
    (pending : Dict SandboxNotice) (j : String) (decision : Decision)
    → (on_pre_step pending j decision).0 ≡ carrying (get pending j) decision
unfolding on_pre_step take
on_pre_step-carrying pending j reject = refl
on_pre_step-carrying pending j (enter []) = refl
on_pre_step-carrying pending j (enter (m ∷ ms)) = ground arith

module _ (artifacts_directory : String) where
  run-told_from :
      (id : String) (pending : Dict SandboxNotice) (es : List NoticeEvent)
      → keep (λ d. d.0 == id) (run artifacts_directory pending es)
        ≡ told artifacts_directory id (get pending id) es
  unfolding run on_restore on_wake
  run-told_from id pending [] = refl
  run-told_from id pending (after_restore j r checkpoint ∷ es) =
      run-told_from id (on_restore artifacts_directory pending j r checkpoint) es
      ∙ ap (λ due. told artifacts_directory id due es) (get-put pending j id _)
  run-told_from id pending (after_wake j r keeps ∷ es) =
      run-told_from id (on_wake artifacts_directory pending j r keeps) es
      ∙ ap (λ due. told artifacts_directory id due es) (get-put pending j id _)
  run-told_from id pending (pre_step j decision ∷ es) =
      let rest = (on_pre_step pending j decision).1 in
      ground (
        arith,
        eq_iff j id,
        run-told_from id rest es,
        on_pre_step-get pending j id decision,
        on_pre_step-carrying pending j decision,
      )

  -- Over any history of restores, wakes and steps, the steps of a session end as they would without
  -- notices, except that the first prompt after its restores and wakes carries the notice of the last
  -- of them in front: no other prompt, and no other session, gets it.
  pub run-told :
      (id : String) (es : List NoticeEvent)
      → keep (λ d. d.0 == id) (run artifacts_directory [] es) ≡ told artifacts_directory id none es
  run-told id es =
      run-told_from id [] es
      ∙ ap (λ due. told artifacts_directory id due es) (get-empty {V = SandboxNotice} id)
