-- ===== src/Instructions/Limit.antt =====
-- The size of the instructions that a session of a workspace is given.
use Prim.Native.String.{len}
use dsh_yawn.Base.{
  ◌+◌, ◌≤◌, ◌≡◌, refl, ap, sym, subst, String, Bool, true, false, Option, none, some, List, [], ◌∷◌,
  every, arith, eq_iff, Bool-cases, inl, inr,
}
use dsh_yawn.Dict.{Dict, get, values, get-put, get-delete, get-empty}
use dsh_yawn.Exec.{Error, Result, ok, err}
use dsh_yawn.Instructions.{
  max_instructions_bytes, InstructionFile, InstructionStore, fresh, StoredInstructions,
  normalize_content, within_limit, texts_only, check_limits, check_fields, parse_instruction_file,
  started, initialize, attempt, persist, set_global, placed, set_workspace, over_limit, bad_format,
}

-- Every workspace with instructions of its own stays within the limit.
abbrev Limited : InstructionFile → Type 0
Limited f =
    (url : String) (content : String)
    → get f.workspaces url ≡ some content
    → within_limit f.global content ≡ true

every-get :
    (p : String → Bool) (m : Dict String) (k v : String)
    → every p (values m) ≡ true
    → get m k ≡ some v
    → p v ≡ true
unfolding get
every-get p [] k v all e = ground (arith, e)
every-get p ((j, w) ∷ m) k v all e = ground (arith, all, e, every-get p m k v)

check_limits-Limited :
    (global : String) (workspaces : Option (Dict String)) (f : InstructionFile)
    → check_limits global workspaces ≡ ok f
    → every (within_limit f.global) (values f.workspaces) ≡ true
unfolding check_limits bad_format over_limit
check_limits-Limited global none f h = ground (arith, h)
check_limits-Limited global (some workspaces) f h = ground (arith, h)

check_fields-Limited :
    (b : Bool) (global : Option String) (workspaces : Option (Dict (Option String)))
    (f : InstructionFile)
    → check_fields b global workspaces ≡ ok f
    → every (within_limit f.global) (values f.workspaces) ≡ true
unfolding check_fields bad_format
check_fields-Limited true (some global) (some workspaces) f h =
    check_limits-Limited global (texts_only workspaces) f h
check_fields-Limited true (some global) none f h = ground (arith, h)
check_fields-Limited true none workspaces f h = ground (arith, h)
check_fields-Limited false global workspaces f h = ground (arith, h)

started-eq-ok :
    (r : Result InstructionFile) (s : InstructionStore) → started r ≡ ok s → r ≡ ok s.state
unfolding started
started-eq-ok (err x) s h = ground (arith, h)
started-eq-ok (ok file) s h = ground (arith, h)

module _ {E : Type 0} (write : E → Option Error × E) where
  attempt-state :
      (s : InstructionStore) (r : Option Error × E) → (attempt write s r).1.state ≡ s.state
  unfolding attempt
  attempt-state s (none, e) = refl
  attempt-state s (some x, e) = refl

  persist-state : (s : InstructionStore) (e : E) → (persist write s e).1.state ≡ s.state
  unfolding persist
  persist-state s e = ground (arith, attempt-state s (write e))

  -- A call of the settings page, with whatever text.
  pub data Edit : Type 0 where
    global_set : String → Edit
    workspace_set : String → String → Edit

  abbrev pub edit : InstructionStore × E → Edit → InstructionStore × E
  edit (s, e) (global_set content) = let (answer, s', e') = set_global write s content e in (s', e')
  edit (s, e) (workspace_set url content) =
      let (answer, s', e') = set_workspace write s url content e in (s', e')

  abbrev pub edit_all : InstructionStore × E → List Edit → InstructionStore × E
  edit_all x [] = x
  edit_all x (c ∷ cs) = edit_all (edit x c) cs

  set_global-accepted :
      (s : InstructionStore) (content : String) (e : E)
      → every (within_limit (normalize_content content)) (values s.state.workspaces) ≡ true
      → (set_global write s content e).1.state
        ≡ record s.state { global = normalize_content content }
  unfolding set_global
  set_global-accepted s content e h =
      rw h (
        persist-state (record s { state = record s.state { global = normalize_content content } })
          e)

  set_global-refused :
      (s : InstructionStore) (content : String) (e : E)
      → every (within_limit (normalize_content content)) (values s.state.workspaces) ≡ false
      → (set_global write s content e).1 ≡ s
  unfolding set_global
  set_global-refused s content e h = rw h refl

  set_global-Limited :
      (s : InstructionStore) (content : String) (e : E)
      → Limited s.state
      → Limited (set_global write s content e).1.state
  set_global-Limited s content e l =
      let fits = within_limit (normalize_content content) in
      elim (Bool-cases (every fits (values s.state.workspaces))) [
        | inl small ↦
            subst Limited (sym (set_global-accepted s content e small))
              (λ url text held. every-get fits s.state.workspaces url text small held)
        | inr large ↦
            subst Limited (sym (ap (λ x. x.state) (set_global-refused s content e large))) l
      ]

  placed-Limited :
      (f : InstructionFile) (j text : String)
      → within_limit f.global text ≡ true
      → Limited f
      → Limited (record f { workspaces = placed f.workspaces j text })
  unfolding placed
  placed-Limited f j text fits l url found held = ground (
    arith,
    held,
    fits,
    eq_iff j url,
    l url found,
    get-put f.workspaces j url text,
    get-delete f.workspaces j url,
  )

  set_workspace-accepted :
      (s : InstructionStore) (j content : String) (e : E)
      → within_limit s.state.global (normalize_content content) ≡ true
      → (set_workspace write s j content e).1.state
        ≡ record s.state { workspaces = placed s.state.workspaces j (normalize_content content) }
  unfolding set_workspace
  set_workspace-accepted s j content e h = rw h (persist-state _ e)

  set_workspace-refused :
      (s : InstructionStore) (j content : String) (e : E)
      → within_limit s.state.global (normalize_content content) ≡ false
      → (set_workspace write s j content e).1 ≡ s
  unfolding set_workspace
  set_workspace-refused s j content e h = rw h refl

  set_workspace-Limited :
      (s : InstructionStore) (j content : String) (e : E)
      → Limited s.state
      → Limited (set_workspace write s j content e).1.state
  set_workspace-Limited s j content e l =
      elim (Bool-cases (within_limit s.state.global (normalize_content content))) [
        | inl fits ↦
            subst Limited (sym (set_workspace-accepted s j content e fits))
              (placed-Limited s.state j (normalize_content content) fits l)
        | inr large ↦
            subst Limited (sym (ap (λ x. x.state) (set_workspace-refused s j content e large))) l
      ]

  edit_all-Limited :
      (s : InstructionStore) (e : E) (cs : List Edit)
      → Limited s.state
      → Limited (edit_all (s, e) cs).0.state
  edit_all-Limited s e [] l = l
  edit_all-Limited s e (global_set content ∷ cs) l =
      edit_all-Limited (set_global write s content e).1 (set_global write s content e).2 cs
        (set_global-Limited s content e l)
  edit_all-Limited s e (workspace_set j content ∷ cs) l =
      edit_all-Limited (set_workspace write s j content e).1 (set_workspace write s j content e).2
        cs (set_workspace-Limited s j content e l)

  initialize-Limited :
      (file : Result (Option StoredInstructions)) (s : InstructionStore)
      → initialize file ≡ ok s
      → Limited s.state
  unfolding initialize fresh parse_instruction_file started
  initialize-Limited (err x) s h url content held = ground (arith, h)
  initialize-Limited (ok none) s h url content held =
      ground (arith, h, held, get-empty {V = String} url)
  initialize-Limited (ok (some file)) s h url content held =
      let parsed = started-eq-ok (parse_instruction_file file) s h in
      every-get (within_limit s.state.global) s.state.workspaces url content
        (check_fields-Limited _ file.global file.workspaces s.state parsed) held

  -- After the host came up on whatever file and after any edits, those that were refused or whose
  -- write failed included, the global instructions and a workspace's own come to at most 65,536
  -- bytes together, for every workspace that has instructions of its own.
  pub edit_all-limit :
      (file : Result (Option StoredInstructions)) (s : InstructionStore) (e : E) (cs : List Edit)
      (url content : String)
      → initialize file ≡ ok s
      → get (edit_all (s, e) cs).0.state.workspaces url ≡ some content
      → len (edit_all (s, e) cs).0.state.global + len content ≤ max_instructions_bytes
  unfolding within_limit
  edit_all-limit file s e cs url content h held =
      ground (arith, edit_all-Limited s e cs (initialize-Limited file s h) url content held)
