-- ===== src/Examples/Found.antt =====
-- A query over three candidates.
use dsh_yawn.Base.{◌≡◌, refl, ◌++◌, ◌↔◌, true, false, none, List, [], ◌∷◌, All, is_some}
use dsh_yawn.Codes.{Codes, lower}
use dsh_yawn.FileSearch.{
  FileReferenceCandidate, characters, file, directory, score_candidate, scored, ranked,
}
use dsh_yawn.FileSearch.Directory.{prefix_of}
use dsh_yawn.FileSearch.Directory.Children.{Child}
use dsh_yawn.FileSearch.Query.{list, list-Child}
use dsh_yawn.FileSearch.Matches.{Within, score_candidate_iff}
use dsh_yawn.FileSearch.Cache.{Event, asked, tool_result, walk_ended, indexed, fresh, run, snapshot}
use dsh_yawn.FileSearch.Cache.Fresh.{answered, is_current, follow_all, run-answered}
use dsh_yawn.FileSearch.Ranking.{BestOf, ranked-BestOf}

-- `src/Ab`
abbrev nested : FileReferenceCandidate
nested = record { path = b's' ∷ b'r' ∷ b'c' ∷ b'/' ∷ b'A' ∷ b'b' ∷ []; kind = file }

-- `axb`
abbrev apart : FileReferenceCandidate
apart = record { path = b'a' ∷ b'x' ∷ b'b' ∷ []; kind = file }

-- `ab`
abbrev whole : FileReferenceCandidate
whole = record { path = b'a' ∷ b'b' ∷ []; kind = directory }

-- `ab`
abbrev query : Codes
query = b'a' ∷ b'b' ∷ []

abbrev candidates : List FileReferenceCandidate
candidates = apart ∷ nested ∷ whole ∷ []

ranked-BestOf_example : BestOf query 2 (scored candidates query) (ranked candidates query 2)
ranked-BestOf_example = ranked-BestOf candidates query 2

score_candidate_iff_example :
    (is_some (score_candidate apart query) ≡ true)
    ↔ Within (characters (lower query)) (lower apart.path)
score_candidate_iff_example = score_candidate_iff apart query

-- A tool ends while the tree is walked.
abbrev overtaken : List Event
overtaken =
    asked "s" true
    ∷ tool_result "s"
    ∷ walk_ended "s" (indexed (record { entries = candidates; truncated = false }))
    ∷ []

run-answered_example :
    answered (snapshot (run fresh overtaken) "s" true).0
    ≡ is_current (follow_all "s" (record { under_way = none; shown = none }) overtaken).shown
run-answered_example = run-answered overtaken "s"

-- `src\A`, as a user of Windows types it
abbrev typed : Codes
typed = b's' ∷ b'r' ∷ b'c' ∷ b'\\' ∷ b'A' ∷ []

abbrev typed_directory : Codes
typed_directory = b's' ∷ b'r' ∷ b'c' ∷ []

list-Child_example :
    All
      (Child (prefix_of (typed_directory ++ b'/' ∷ [])) (b'A' ∷ []))
      (list (λ prefer_fresh. candidates) [] 2 false typed)
list-Child_example =
    list-Child (λ prefer_fresh. candidates) [] 2 false typed typed_directory (b'A' ∷ []) refl refl
