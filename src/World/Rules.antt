-- ===== src/World/Rules.antt =====
-- What every step of the lifecycle keeps, whatever it returns or throws: the rules for conditions on
-- the world, for the calls that only the environment sees and for each change of the host's state.
use dsh_yawn.Base.{String, Option, List}
use dsh_yawn.Dict.{put, delete}
use dsh_yawn.Exec.{Result, Exec, both}
use dsh_yawn.Exec.Hoare.{Keeps}
use dsh_yawn.Records.{Bytes}
use dsh_yawn.World.{Client, Host, read, World, outside, outside_silent, warn, cache_client, evict}

module _ {E : Type 0} (P : World E → Type 0) (id : String) where
  -- A condition on the world as the verbs of one session meet it: it does not mention the environment
  -- or the warnings, and holds on if the cached runner of this session changes.
  pub record IsInner : Type 0 where
    pub env_free : (w : World E) (e : E) → P w → P (record w { env = e })
    pub warnings_free : (w : World E) (m : List String) → P w → P (record w { warnings = m })
    pub cached : (w : World E) (c : Client) → P w → P (record w { clients = put w.clients id c })
    pub evicted : (w : World E) → P w → P (record w { clients = delete w.clients id })

module _ {E : Type 0} {P : World E → Type 0} {id : String} (inner : IsInner P id) where
  pub Keeps-outside : {A : Type 0} (f : E → Result A × E) → Keeps P (outside f)
  unfolding outside
  Keeps-outside f = record { keeps = λ w h. inner.env_free w (f w.env).1 h }

  pub Keeps-outside_silent : (f : E → E) → Keeps P (outside_silent f)
  unfolding outside_silent
  Keeps-outside_silent f = record { keeps = λ w h. inner.env_free w (f w.env) h }

  pub Keeps-warn : (m : String) → Keeps P (warn m)
  unfolding warn
  Keeps-warn m = record { keeps = λ w h. inner.warnings_free w _ h }

  pub Keeps-cache_client : (c : Client) → Keeps P (cache_client id c)
  unfolding cache_client
  Keeps-cache_client c = record { keeps = λ w h. inner.cached w c h }

  pub Keeps-read : (h : Host E) (file : World E → Option Bytes) → Keeps P (read h file)
  unfolding read
  Keeps-read h file = record { keeps = λ w p. inner.env_free w (h.read_file w.env).1 p }

  pub Keeps-evict : Keeps P (evict id)
  unfolding evict
  Keeps-evict = record { keeps = λ w h. inner.evicted w h }

pub Keeps-both :
    {S : Type 0} {P : S → Type 0} {m n : Exec S (Unit {0})}
    → Keeps P m
    → Keeps P n
    → Keeps P (both m n)
unfolding both
Keeps-both {m = m} km kn = record { keeps = λ s h. kn.keeps (m s).1 (km.keeps s h) }

-- A condition that does not mention the environment, whatever else it mentions.
pub Keeps-outside_env :
    {E A : Type 0} {P : World E → Type 0} (f : E → Result A × E)
    → ((w : World E) (e : E) → P w → P (record w { env = e }))
    → Keeps P (outside f)
unfolding outside
Keeps-outside_env f free = record { keeps = λ w h. free w (f w.env).1 h }
