-- ===== src/NoticeTexts.antt =====
-- control-plane/src/sandbox/manager/sandbox-notices.ts: the texts of the notices.
use Prim.Native.String.{◌++◌}
use dsh_yawn.Base.{String}

abbrev pub restore_text : String
restore_text =
    "This sandbox was recreated. Your Git changes and commits are back. The "
    ++ "repository's setup (`.agents/setup`) ran before the restore, so re-run "
    ++ "project steps if your restored changes affect them. Anything you "
    ++ "installed yourself, ignored files, and everything else outside the "
    ++ "repository are gone. Previously staged changes are now unstaged."

abbrev pub restore_dropped_text : String → String
restore_dropped_text artifacts =
    "This sandbox was recreated. Your Git changes and commits are back, but "
    ++ "the artifacts folder could not be brought back, so the files in " ++ artifacts
    ++ " are gone. The repository's setup (`.agents/setup`) ran before the "
    ++ "restore, so re-run project steps if your restored changes affect them. "
    ++ "Anything you installed yourself, ignored files, and everything else "
    ++ "outside the repository are gone. Previously staged changes are now " ++ "unstaged."

abbrev pub wake_text : String
wake_text =
    "This sandbox was suspended and woke on a newly created machine. Files "
    ++ "under /workspace survived, including your home directory, but running "
    ++ "processes, /tmp, and anything you installed yourself outside /workspace "
    ++ "are gone. The repository's setup (`.agents/setup`) ran again on this "
    ++ "machine; re-create anything else you need before continuing."

abbrev pub wake_kept_text : String
wake_kept_text =
    "This sandbox was suspended and woke on the same machine. Its files are "
    ++ "intact, but the processes that were running before the suspension are "
    ++ "gone. Restart what you need before continuing."

abbrev pub no_repository_restore_text : String → String
no_repository_restore_text artifacts =
    "This sandbox was recreated on a new machine. The files in " ++ artifacts
    ++ " are back. The rest of your working directory, anything you installed "
    ++ "yourself, and everything else outside the artifacts folder are gone."

abbrev pub no_repository_restore_dropped_text : String → String
no_repository_restore_dropped_text artifacts =
    "This sandbox was recreated on a new machine, and the artifacts folder "
    ++ "could not be brought back, so the files in " ++ artifacts
    ++ " are gone. Your working directory, anything you installed yourself, and "
    ++ "everything else are gone too."

abbrev pub no_repository_wake_text : String
no_repository_wake_text =
    "This sandbox was suspended and woke on a newly created machine. Files "
    ++ "under /workspace survived, including your home directory, but running "
    ++ "processes, /tmp, and anything you installed yourself outside /workspace "
    ++ "are gone. Re-create anything else you need before continuing."
