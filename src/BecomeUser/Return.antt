-- ===== src/BecomeUser/Return.antt =====
-- What a system call does to a session, and the calls of restore_id in lib/BecomeUser.py from where they succeed.
use tsi.Base.{◌≡◌, refl, ◌∙◌, ◌⊎◌, inl, inr, true, Option, none, some}
use tsi.Base.{[], ◌∷◌, arith, int_eq}
use tsi.Base.Int.{ℤ, pos}
use tsi.Base.Exec.{Result, ok, err, os_error, Exec, ◌>>◌}
use tsi.UserCache.{UserCache, Os}
use tsi.BecomeUser.Posix.{IsId, IsPosix, server_process}
use tsi.BecomeUser.{Config, Process, Kernel, Session, system_call, restore_calls, restore_id}

pub root-IsId : (config : Config) → config.effective_uid ≡ pos 0 → IsId config.effective_uid
root-IsId config root = (0, root, omega arith)

-- Root, or able to take the uid of the server again.
abbrev pub CanRestore : Config → Process → Type 0
CanRestore config p = (p.euid ≡ pos 0) ⊎ (p.suid ≡ config.effective_uid)

-- What a system call makes of a session, by its result.
abbrev pub called : Option Process → Session → Result (Unit {0}) × Session
called none s = (err os_error, s)
called (some p) s = (ok tt, record s { process = p })

pub system_call-called :
    (f : Process → Option Process) (s : Session) → system_call f s ≡ called (f s.process) s
system_call-called f s = go (f s.process)
  where
    go :
        (o : Option Process)
        → elim o as (λ _. Result (Unit {0}) × Session) [
          | none ↦ (err os_error, s)
          | some p ↦ (ok tt, record s { process = p })
        ]
          ≡ called o s
    go none = refl
    go (some p) = refl

-- A system call that succeeds, and what follows it.
call-step {ℓ} :
    {A : Type ℓ} (f : Process → Option Process) (rest : Exec Session A) (c : UserCache)
    (p q : Process)
    → f p ≡ some q
    → (system_call f >> rest) (record { cache = c; process = p })
      ≡ rest (record { cache = c; process = q })
call-step f rest c p q e = rw (e, system_call)

module _ (os : Os) (config : Config) (kernel : Kernel) (posix : IsPosix kernel) where
  setresuid-CanRestore :
      (p : Process)
      → IsId config.effective_uid
      → CanRestore config p
      → kernel.setresuid config.effective_uid config.effective_uid config.effective_uid p
        ≡ some (record p {
          ruid = config.effective_uid;
          euid = config.effective_uid;
          suid = config.effective_uid;
        })
  setresuid-CanRestore p valid (inl e) = posix.setresuid _ p valid e
  setresuid-CanRestore p valid (inr e) = posix.setresuid_saved _ p valid e

  module _ (root : config.effective_uid ≡ pos 0) (gid_valid : IsId config.effective_gid) where
    restore_id-switching :
        (s : Session)
        → config.switch_uid ≡ true
        → restore_id os config kernel s ≡ restore_calls os config kernel s
    unfolding restore_id
    restore_id-switching s on = rw on

    pub restore_id-CanRestore :
        (s : Session)
        → config.switch_uid ≡ true
        → CanRestore config s.process
        → restore_id os config kernel s ≡ (ok tt, record s { process = server_process config })
    unfolding restore_calls
    restore_id-CanRestore s on can =
        restore_id-switching s on
        ∙ call-step (kernel.setresuid u u u) _ s.cache s.process p1
            (setresuid-CanRestore s.process (root-IsId config root) can)
        ∙ call-step (kernel.setgid g) _ s.cache p1 p2 (posix.setgid g p1 gid_valid root)
        ∙ call-step (kernel.setgroups (g ∷ [])) _ s.cache p2 p3
            (posix.setgroups g p2 gid_valid root)
        ∙ call-step (kernel.setegid g) _ s.cache p3 p3 (posix.setegid g p3 gid_valid root)
      where
        u : ℤ
        u = config.effective_uid

        g : ℤ
        g = config.effective_gid

        p1 : Process
        p1 = record s.process { ruid = u; euid = u; suid = u }

        p2 : Process
        p2 = record p1 { rgid = g; egid = g; sgid = g }

        p3 : Process
        p3 = record p2 { groups = g ∷ [] }
