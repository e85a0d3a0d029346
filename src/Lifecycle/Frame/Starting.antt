-- ===== src/Lifecycle/Frame/Starting.antt =====
-- The transitions that end in a live runner keep every local condition.
use dsh_yawn.Base.{◌≡◌, refl, String, Option, none, some, List}
use dsh_yawn.Exec.{Error, Result, ◌>>=◌, catch}
use dsh_yawn.Exec.Hoare.{
  Keeps, keeps_rules, Keeps-pure, Keeps-raise, Keeps-gets, Keeps-lift, Keeps-bind, Keeps-catch,
  Keeps-if, Keeps-on_not_found, Keeps-bind_fact, Ensures-bind_fact, Ensures, Ensures-pure,
  Ensures-after,
}
use dsh_yawn.Records.{
  Bytes, RecordBase, RunningRecord, SessionRecord, running, Checkpoint, SandboxProfile,
}
use dsh_yawn.Registry.{SandboxBackend}
use dsh_yawn.Checkpoint.{SavedCheckpoint}
use dsh_yawn.World.{Client, World}
use dsh_yawn.World.Rules.{IsInner, Keeps-outside, Keeps-outside_silent, Keeps-read}
use dsh_yawn.Attachment.{attach}
use dsh_yawn.Attachment.Keeping.{Keeps-reuse_cached, Keeps-attach, Keeps-detach}
use dsh_yawn.Lifecycle.{Deps}
use dsh_yawn.Lifecycle.Starting.{
  described, or_unreachable, claim_sandbox, provision, profile_or_unreachable, destroy_quietly,
  replace_lost_sandbox, woken_record, after_wake_hooks, wake, wake_or_replace, serve_uncached,
  serve_running, provision_fresh, or_missing, give_up_restore, finish_restore, restore,
}
use dsh_yawn.Lifecycle.Frame.{IsLocal, Keeps-call_hooks}

module _ {E : Type 0} {d : Deps E} {P : World E → Type 0} {id : String} (loc : IsLocal d P id) where
  abbrev inner : IsInner P id
  inner = loc.inner

  ruleset calls = (keeps_rules, Keeps-outside, Keeps-outside_silent)

  Keeps-or_unreachable : (o : Option (SandboxBackend E)) → Keeps P (or_unreachable d o)
  unfolding or_unreachable
  Keeps-or_unreachable none = Keeps-raise _
  Keeps-or_unreachable (some b) = Keeps-pure b

  Keeps-profile_or_unreachable : (o : Option SandboxProfile) → Keeps P (profile_or_unreachable d o)
  unfolding profile_or_unreachable
  Keeps-profile_or_unreachable none = Keeps-raise _
  Keeps-profile_or_unreachable (some b) = Keeps-pure b

  Keeps-or_missing : (o : Option Bytes) → Keeps P (or_missing d o)
  unfolding or_missing
  Keeps-or_missing none = Keeps-raise _
  Keeps-or_missing (some b) = Keeps-pure b

  Keeps-destroy_quietly :
      (b : SandboxBackend E) (ref : List (String × String)) → Keeps P (destroy_quietly d b ref)
  unfolding destroy_quietly
  Keeps-destroy_quietly b ref = Keeps-catch (Keeps-outside inner _) (λ e. Keeps-pure tt)

  abbrev Own : RunningRecord → Type 0
  Own r = r.base.session_id ≡ id

  Keeps-claim_sandbox :
      (profile : SandboxProfile) (url : String) → Keeps P (claim_sandbox d id profile url)
  unfolding claim_sandbox
  Keeps-claim_sandbox profile url = search (calls, Keeps-or_unreachable)

  -- A claimed sandbox is described under the session's own id.
  claim_sandbox-Own :
      (profile : SandboxProfile) (url : String)
      → Ensures P (claim_sandbox d id profile url) (λ r _. Own r)
  unfolding claim_sandbox described
  claim_sandbox-Own profile url = Ensures-after (Keeps-or_unreachable _) (λ b.
      Ensures-after (Keeps-outside inner _)
        (λ handle. Ensures-after (Keeps-gets _) (λ time. Ensures-pure _ _ (λ w p. refl))))

  Keeps-provision : (profile : SandboxProfile) (url : String) → Keeps P (provision d id profile url)
  unfolding provision
  Keeps-provision profile url =
      Keeps-bind_fact Own (Keeps-claim_sandbox profile url) (claim_sandbox-Own profile url)
        (λ r own. Keeps-bind (loc.set (running r) own tt) (λ _. Keeps-pure r))

  provision-Own :
      (profile : SandboxProfile) (url : String)
      → Ensures P (provision d id profile url) (λ r _. Own r)
  unfolding provision
  provision-Own profile url =
      Ensures-bind_fact Own (Keeps-claim_sandbox profile url) (claim_sandbox-Own profile url)
        (λ r own. Ensures-after (loc.set (running r) own tt) (λ _. Ensures-pure _ _ (λ w p. own)))

  module _ (r : RunningRecord) (own : Own r) where
    Keeps-replace_lost_sandbox :
        (b : SandboxBackend E) (url : String) → Keeps P (replace_lost_sandbox d b r url)
    unfolding replace_lost_sandbox
    Keeps-replace_lost_sandbox b url = rw own (
        Keeps-bind (Keeps-destroy_quietly b r.reference) (λ _. Keeps-bind (loc.forget) (λ _.
          Keeps-bind (Keeps-profile_or_unreachable _) (λ profile.
            Keeps-bind_fact Own (Keeps-provision profile url) (provision-Own profile url)
              (λ r' own'. Keeps-attach d.host inner r' own' url none)))))

    Keeps-after_wake_hooks :
        (b : SandboxBackend E) (woken : RunningRecord) (c : Client)
        → Keeps P (after_wake_hooks d b woken c)
    unfolding after_wake_hooks
    Keeps-after_wake_hooks b woken c =
        Keeps-if b.supports_hibernate (Keeps-call_hooks inner d _ _) (Keeps-pure tt)

    Keeps-wake : (b : SandboxBackend E) (url : String) → Keeps P (wake d b r url)
    unfolding wake woken_record
    Keeps-wake b url = Keeps-bind (Keeps-outside inner _) (λ handle.
        Keeps-bind (Keeps-gets _) (λ time.
          Keeps-bind (loc.set (running (woken_record d r handle time)) own tt) (λ _.
            Keeps-bind (Keeps-attach d.host inner (woken_record d r handle time) own url none)
              (λ c. Keeps-bind (Keeps-after_wake_hooks b _ c) (λ _. Keeps-pure c)))))

    pub Keeps-wake_or_replace :
        (whole : SessionRecord) (url : String) → Keeps P (wake_or_replace d whole r url)
    unfolding wake_or_replace
    Keeps-wake_or_replace whole url =
        Keeps-bind (Keeps-lift _)
          (λ b. Keeps-on_not_found (Keeps-wake b url) (Keeps-replace_lost_sandbox b url))

    Keeps-serve_uncached : (cached : Option Client) → Keeps P (serve_uncached d r cached)
    unfolding serve_uncached
    Keeps-serve_uncached (some c) = Keeps-pure c
    Keeps-serve_uncached none = Keeps-bind (Keeps-lift _) (λ b.
        Keeps-bind (Keeps-outside inner _) (λ healthy.
          Keeps-if healthy (Keeps-attach d.host inner r own _ none)
            (Keeps-wake_or_replace (running r) _)))

    pub Keeps-serve_running : Keeps P (serve_running d r)
    unfolding serve_running
    Keeps-serve_running = Keeps-bind (Keeps-reuse_cached d.host inner r own) Keeps-serve_uncached

    Keeps-give_up_restore : (e : Error) → Keeps P (give_up_restore d id r e)
    unfolding give_up_restore
    Keeps-give_up_restore e = Keeps-bind (Keeps-lift _) (λ b.
        Keeps-bind (Keeps-destroy_quietly b _)
          (λ _. Keeps-bind (Keeps-detach d.host inner _) (λ _. Keeps-raise e)))

  pub Keeps-provision_fresh :
      (repository : E → Result String × E) → Keeps P (provision_fresh d id repository)
  unfolding provision_fresh
  Keeps-provision_fresh repository = Keeps-bind (Keeps-gets _) (λ store.
      Keeps-bind (Keeps-lift _) (λ profile. Keeps-bind (Keeps-outside inner repository) (λ url.
        Keeps-bind_fact Own (Keeps-provision profile _) (provision-Own profile _)
          (λ r own. Keeps-attach d.host inner r own _ none))))

  restore_claimed :
      (b : RecordBase) (saved : Checkpoint) (files : SavedCheckpoint) (r : RunningRecord)
      → Own r
      → Keeps P (
          catch (attach d.host r b.repository_url (some files)) (give_up_restore d id r)
          >>= λ client. finish_restore d id r saved client)
  restore_claimed b saved files r own =
      Keeps-bind
        (Keeps-catch (Keeps-attach d.host inner r own _ (some files))
          (λ e. Keeps-give_up_restore r own e))
        (λ c. loc.finish r saved c own)

  pub Keeps-restore :
      (b : RecordBase) (saved : Checkpoint) → b.session_id ≡ id → Keeps P (restore d b saved)
  unfolding restore
  Keeps-restore b saved own = rw own (
      Keeps-bind (Keeps-read inner d.host _) (λ found.
        Keeps-bind (Keeps-or_missing found) (λ bundle.
          Keeps-bind (Keeps-read inner d.host _) (λ archive.
            Keeps-bind (Keeps-profile_or_unreachable _) (λ profile.
              Keeps-bind_fact Own (Keeps-claim_sandbox profile _) (claim_sandbox-Own profile _)
                (λ r own'. restore_claimed b saved _ r own'))))))
