-- ===== src/Attachment/Keeping.antt =====
-- What every step of the attachment keeps of the host's own state.
use dsh_yawn.Base.{ℕ, ◌≡◌, String, Bool, true, false, Option, none, some}
use dsh_yawn.Exec.{Exec}
use dsh_yawn.Exec.Hoare.{Keeps, keeps_rules, Keeps-gets, Keeps-bind, Keeps-catch}
use dsh_yawn.Records.{RunningRecord}
use dsh_yawn.Checkpoint.{SavedCheckpoint}
use dsh_yawn.World.{Client, Host, World, cache_client, evict}
use dsh_yawn.World.Rules.{
  IsInner, Keeps-outside, Keeps-outside_silent, Keeps-cache_client, Keeps-evict,
}
use dsh_yawn.Attachment.{
  drop, detach, round, wait_loop, wait_for_runner, try_cached, reuse_cached, put_back, attach,
  connect_if_absent, connect, checkpoint,
}

module _ {E : Type 0} (h : Host E) {P : World E → Type 0} {id : String} (inner : IsInner P id) where
  ruleset calls = (keeps_rules, Keeps-outside, Keeps-outside_silent)

  pub Keeps-drop : (sandbox_id : String) → Keeps P (drop h sandbox_id)
  unfolding drop
  Keeps-drop sandbox_id = search calls

  Keeps-round :
      (b : Bool) (sandbox_id : String) (timeout : ℕ) (rest : Exec (World E) Client)
      → Keeps P rest
      → Keeps P (round h b sandbox_id timeout rest)
  unfolding round
  Keeps-round false sandbox_id timeout rest k = search calls
  Keeps-round true sandbox_id timeout rest k = Keeps-catch (search calls) (λ e. search calls)

  pub Keeps-wait_loop :
      (fuel : ℕ) (sandbox_id : String) (deadline : ℕ)
      → Keeps P (wait_loop h fuel sandbox_id deadline)
  unfolding wait_loop
  Keeps-wait_loop ℕ.zero sandbox_id deadline = search calls
  Keeps-wait_loop (ℕ.suc fuel) sandbox_id deadline =
      Keeps-bind (Keeps-gets _)
        (λ time. Keeps-round _ sandbox_id _ _ (Keeps-wait_loop fuel sandbox_id deadline))

  pub Keeps-wait_for_runner : (sandbox_id : String) → Keeps P (wait_for_runner h sandbox_id)
  unfolding wait_for_runner
  Keeps-wait_for_runner sandbox_id = Keeps-bind (Keeps-gets _) (λ time. search (Keeps-wait_loop))

  pub Keeps-put_back :
      (c : Client) (url : String) (saved : Option SavedCheckpoint)
      → Keeps P (put_back h c url saved)
  unfolding put_back
  Keeps-put_back c url none = search calls
  Keeps-put_back c url (some saved) = search calls

  module _ (r : RunningRecord) (own : r.base.session_id ≡ id) where
    cache_own : (c : Client) → Keeps P (cache_client r.base.session_id c)
    cache_own c = rw own (Keeps-cache_client inner c)

    evict_own : Keeps P (evict {E = E} r.base.session_id)
    evict_own = rw own (Keeps-evict inner)

    Keeps-try_cached : (cached : Option Client) → Keeps P (try_cached h r cached)
    unfolding try_cached
    Keeps-try_cached none = search calls
    Keeps-try_cached (some c) = Keeps-catch (search calls) (λ e. search (calls, evict_own))

    pub Keeps-reuse_cached : Keeps P (reuse_cached h r)
    unfolding reuse_cached
    Keeps-reuse_cached = Keeps-bind (Keeps-gets _) Keeps-try_cached

    pub Keeps-attach :
        (url : String) (saved : Option SavedCheckpoint) → Keeps P (attach h r url saved)
    unfolding attach
    Keeps-attach url saved =
        search (calls, Keeps-wait_for_runner, Keeps-put_back, cache_own) depth 9

    Keeps-connect_if_absent : (cached : Option Client) → Keeps P (connect_if_absent h r cached)
    unfolding connect_if_absent
    Keeps-connect_if_absent none = search (calls, Keeps-wait_for_runner, cache_own)
    Keeps-connect_if_absent (some c) = search calls

    pub Keeps-connect : Keeps P (connect h r)
    unfolding connect
    Keeps-connect = Keeps-bind (Keeps-gets _) Keeps-connect_if_absent

    pub Keeps-checkpoint : Keeps P (checkpoint h r)
    unfolding checkpoint
    Keeps-checkpoint = search (calls, Keeps-connect)

  pub Keeps-detach : (sandbox_id : String) → Keeps P (detach h id sandbox_id)
  unfolding detach
  Keeps-detach sandbox_id = search (calls, Keeps-drop, Keeps-evict)
