-- ===== src/Checkpoint/Output.antt =====
-- Reading back what the save scripts print.
use dsh_yawn.Base.{
  ◌-◌, ◌%◌, ◌≤◌, ◌≡◌, refl, sym, ap, ◌∙◌, ◌⊎◌, inl, inr, true, false, Option, none, some, [], ◌∷◌,
  ◌++◌, arith, eqb, length, every, or_default, subst,
}
use dsh_yawn.Exec.{ok}
use dsh_yawn.Records.{Bytes}
use dsh_yawn.Checkpoint.{
  newline, drop, cut, is_commit, has_bundle_header, GitCheckpoint, parse_save_output, first_line,
  second_line, check_save, is_complete_tar, parse_artifacts_output, artifacts_line, check_artifacts,
}

-- A line holds no newline.
abbrev pub IsLine : Bytes → Type 0
IsLine [] = Unit {0}
IsLine (b ∷ bs) = (eqb b newline ≡ false) × IsLine bs

cut-append : (line rest : Bytes) → IsLine line → cut (line ++ newline ∷ rest) ≡ some (line, rest)
unfolding cut
cut-append [] rest h = refl
cut-append (b ∷ line) rest h = ground (arith, cut-append line rest h.1)

cut-eq-some :
    (bs line rest : Bytes)
    → cut bs ≡ some (line, rest)
    → (bs ≡ line ++ newline ∷ rest) × IsLine line
unfolding cut
cut-eq-some [] line rest h = cc
cut-eq-some (b ∷ bs) [] rest h = (ground arith, tt)
cut-eq-some (b ∷ bs) (c ∷ line) rest h = ground (arith, cut-eq-some bs line rest)

check_save-eq-ok :
    (branch commit bundle : Bytes) (g : GitCheckpoint)
    → check_save branch commit bundle ≡ ok g
    → (is_commit commit ≡ true)
      × ((bundle ≡ []) ⊎ (has_bundle_header bundle ≡ true))
      × (g.commit ≡ commit)
      × (g.bundle ≡ bundle)
      × (or_default g.branch [] ≡ branch)
unfolding check_save
check_save-eq-ok [] commit [] g h = ground arith
check_save-eq-ok (b ∷ branch) commit [] g h = ground arith
check_save-eq-ok [] commit (c ∷ bundle) g h = ground arith
check_save-eq-ok (b ∷ branch) commit (c ∷ bundle) g h = ground arith

module _ (decode_text : Bytes → Bytes) where
  second_line-eq-ok :
      (branch : Bytes) (r : Option (Bytes × Bytes)) (g : GitCheckpoint)
      → second_line decode_text branch r ≡ ok g
      → (c : Bytes) × (b : Bytes) × (r ≡ some (c, b))
        × (check_save (decode_text branch) (decode_text c) b ≡ ok g)
  unfolding second_line
  second_line-eq-ok branch none g h = cc
  second_line-eq-ok branch (some (c, b)) g h = (c, b, refl, h)

  first_line-eq-ok :
      (r : Option (Bytes × Bytes)) (g : GitCheckpoint)
      → first_line decode_text r ≡ ok g
      → (line : Bytes) × (rest : Bytes) × (r ≡ some (line, rest))
        × (second_line decode_text line (cut rest) ≡ ok g)
  unfolding first_line
  first_line-eq-ok none g h = cc
  first_line-eq-ok (some (line, rest)) g h = (line, rest, refl, h)

  -- An output that is accepted is a branch line, a commit line and exactly the bundle that was read: the
  -- branch and the commit are those lines as `Buffer.toString` decodes them (an empty branch as none), the
  -- decoded commit is 40 hex digits, and bytes after the second newline are a bundle with Git's header.
  pub parse_save_output-eq-ok :
      (output : Bytes) (g : GitCheckpoint)
      → parse_save_output decode_text output ≡ ok g
      → (branch : Bytes) × (commit : Bytes) × (output
          ≡ branch ++ newline ∷ (commit ++ newline ∷ g.bundle))
        × IsLine branch
        × IsLine commit
        × (or_default g.branch [] ≡ decode_text branch)
        × (g.commit ≡ decode_text commit)
        × (is_commit g.commit ≡ true)
        × ((g.bundle ≡ []) ⊎ (has_bundle_header g.bundle ≡ true))
  unfolding parse_save_output
  parse_save_output-eq-ok output g h =
      let (line, rest, e1, h1) = first_line-eq-ok (cut output) g h in
      let (c, b, e2, h2) = second_line-eq-ok line (cut rest) g h1 in
      let (hex, header, gc, gb, gbr) = check_save-eq-ok (decode_text line) (decode_text c) b g h2 in
      let (o1, l1) = cut-eq-some output line rest e1 in
      let (o2, l2) = cut-eq-some rest c b e2 in
      (
        line,
        c,
        o1
            ∙ ap (λ (r : Bytes). line ++ newline ∷ r)
                (o2 ∙ ap (λ (x : Bytes). c ++ newline ∷ x) (sym gb)),
        l1,
        l2,
        gbr,
        gc,
        subst (λ x. is_commit x ≡ true) (sym gc) hex,
        subst (λ x. (x ≡ []) ⊎ (has_bundle_header x ≡ true)) (sym gb) header,
      )

check_artifacts-eq-ok :
    (header tar result : Bytes)
    → check_artifacts header tar ≡ ok result
    → (result ≡ []) ⊎ ((header ≡ b'1' ∷ []) × (result ≡ tar) × (is_complete_tar tar ≡ true))
unfolding check_artifacts
check_artifacts-eq-ok [] tar result h = ground arith
check_artifacts-eq-ok (b ∷ []) tar result h = ground arith
check_artifacts-eq-ok (b ∷ c ∷ header) tar result h = ground arith

artifacts_line-eq-ok :
    (r : Option (Bytes × Bytes)) (result : Bytes)
    → artifacts_line r ≡ ok result
    → (header : Bytes) × (tar : Bytes) × (r ≡ some (header, tar))
      × (check_artifacts header tar ≡ ok result)
unfolding artifacts_line
artifacts_line-eq-ok none result h = cc
artifacts_line-eq-ok (some (header, tar)) result h = (header, tar, refl, h)

-- The parts of a whole archive: at least the two closing blocks, whole blocks only, and closing
-- blocks of zeros.
pub record IsWhole (tar : Bytes) : Type 0 where
  pub long : 1024 ≤ length tar
  pub blocks : length tar % 512 ≡ 0
  pub closed : every (λ b. eqb b 0) (drop (length tar - 1024) tar) ≡ true

is_complete_tar-IsWhole : (tar : Bytes) → is_complete_tar tar ≡ true → IsWhole tar
unfolding is_complete_tar
is_complete_tar-IsWhole tar h = ground arith

-- An artifacts output that is accepted carries no folder, or is the line `1` and exactly the tar
-- that was read from it, which is whole: at least two blocks of 512 bytes, no block cut short, and
-- the last two blocks zero.
pub parse_artifacts_output-eq-ok :
    (output tar : Bytes)
    → parse_artifacts_output output ≡ ok tar
    → (tar ≡ []) ⊎ ((output ≡ b'1' ∷ newline ∷ tar) × IsWhole tar)
unfolding parse_artifacts_output
parse_artifacts_output-eq-ok output tar h =
    let (header, rest, e, h1) = artifacts_line-eq-ok (cut output) tar h in
    let (o, line) = cut-eq-some output header rest e in
    elim (check_artifacts-eq-ok header rest tar h1) [
      | inl empty ↦ inl empty
      | inr (one, same, whole) ↦ inr (
        o
            ∙ ap (λ (x : Bytes). x ++ newline ∷ rest) one
            ∙ ap (λ (x : Bytes). b'1' ∷ newline ∷ x) (sym same),
        subst IsWhole (sym same) (is_complete_tar-IsWhole rest whole),
      )
    ]
