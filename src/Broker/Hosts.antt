-- ===== src/Broker/Hosts.antt =====
-- The table of Git hosts, and which credential a host is given.
use dsh_yawn.Base.{
  ◌≡◌, refl, ap, subst, sym, Bool, true, false, ◌||◌, List, [], ◌∷◌, any, All, if◌then◌else◌, arith,
  inl, inr, Bool-cases,
}
use dsh_yawn.Exec.{Result, ok, err}
use dsh_yawn.Codes.{Codes, same, same_iff}
use dsh_yawn.GitHosts.{
  GitHostCredential, normalize_git_host, normalize_git_username, normalize_git_secret_name,
}
use dsh_yawn.GitHosts.Normal.{normalize_git_host_idem}
use dsh_yawn.Broker.{put_host, drop_host, normal_entry, normalize_entry}

abbrev pub has_host : List GitHostCredential → Codes → Bool
has_host xs host = any (λ entry. same entry.host host) xs

abbrev pub HostsOnce : List GitHostCredential → Type 0
HostsOnce [] = Unit
HostsOnce (x ∷ xs) = (has_host xs x.host ≡ false) × HostsOnce xs

abbrev pub Normal : GitHostCredential → Type 0
Normal x = normalize_git_host x.host ≡ ok x.host

-- No host stands in the table twice, and every host is in its normal form.
abbrev pub Tidy : List GitHostCredential → Type 0
Tidy xs = HostsOnce xs × All Normal xs

has_host-put_host :
    (xs : List GitHostCredential) (entry : GitHostCredential) (host : Codes)
    → has_host (put_host xs entry) host ≡ (same entry.host host || has_host xs host)
unfolding put_host
has_host-put_host [] entry host = refl
has_host-put_host (x ∷ xs) entry host =
    ground (arith, same_iff x.host entry.host, has_host-put_host xs entry host)

pub put_host-Tidy :
    (xs : List GitHostCredential) (entry : GitHostCredential)
    → Tidy xs
    → Normal entry
    → Tidy (put_host xs entry)
unfolding put_host
put_host-Tidy [] entry i n = ((refl, tt), (n, tt))
put_host-Tidy (x ∷ xs) entry ((once, more), (normal, rest)) n =
    elim (Bool-cases (same x.host entry.host)) [
      | inl equal ↦
          subst Tidy (ap (λ b. if b then entry ∷ xs else x ∷ put_host xs entry) (sym equal))
            ((ground (arith, once, same_iff x.host entry.host, equal), more), (n, rest))
      | inr other ↦
          let (once_still, normal_still) = put_host-Tidy xs entry (more, rest) n in
          subst Tidy (ap (λ b. if b then entry ∷ xs else x ∷ put_host xs entry) (sym other)) (
            (
              ground (
                arith,
                once,
                has_host-put_host xs entry x.host,
                same_iff x.host entry.host,
                same_iff entry.host x.host,
                other,
              ),
              once_still,
            ),
            (normal, normal_still),
          )
    ]

has_host-drop_host :
    (xs : List GitHostCredential) (gone host : Codes)
    → has_host xs host ≡ false
    → has_host (drop_host xs gone) host ≡ false
unfolding drop_host
has_host-drop_host [] gone host e = refl
has_host-drop_host (x ∷ xs) gone host e = ground (arith, e, has_host-drop_host xs gone host)

pub drop_host-Tidy :
    (xs : List GitHostCredential) (gone : Codes) → Tidy xs → Tidy (drop_host xs gone)
unfolding drop_host
drop_host-Tidy [] gone i = i
drop_host-Tidy (x ∷ xs) gone ((once, more), (normal, rest)) =
    elim (same x.host gone) as (λ b. Tidy (if b then xs else x ∷ drop_host xs gone)) [
      | true ↦ (more, rest)
      | false ↦
          let (once_still, normal_still) = drop_host-Tidy xs gone (more, rest) in
          ((has_host-drop_host xs gone x.host once, once_still), (normal, normal_still))
    ]

normal_entry-Normal :
    (input : Codes) (h u n : Result Codes) (entry : GitHostCredential)
    → normalize_git_host input ≡ h
    → normal_entry h u n ≡ ok entry
    → Normal entry
unfolding normal_entry
normal_entry-Normal input (ok host) (ok username) (ok secret) entry e k =
    let same_host : host ≡ entry.host = ground (arith, k) in
    subst (λ x. normalize_git_host x ≡ ok x) same_host (normalize_git_host_idem input host e)
normal_entry-Normal input (err x) u n entry e k = ground (arith, k)
normal_entry-Normal input (ok host) (err x) n entry e k = ground (arith, k)
normal_entry-Normal input (ok host) (ok username) (err x) entry e k = ground (arith, k)

pub normalize_entry-Normal :
    (host username secret : Codes) (entry : GitHostCredential)
    → normalize_entry host username secret ≡ ok entry
    → Normal entry
unfolding normalize_entry
normalize_entry-Normal host username secret entry =
    normal_entry-Normal host (normalize_git_host host) (normalize_git_username username)
      (normalize_git_secret_name secret) entry refl
