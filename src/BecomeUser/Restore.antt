-- ===== src/BecomeUser/Restore.antt =====
-- The way back: after any attempt to switch, the server gets its own identity again.
use tsi.Base.{◌≡◌, refl, ◌∙◌, inl, inr, Bool, true, false, Option, none, some}
use tsi.Base.{List, [], ◌∷◌, arith, int_eq}
use tsi.Base.Int.{ℤ, pos}
use tsi.Base.Exec.{Error, ok, err, index_error, Exec, ◌>>=◌, Leads, Leads-bind, gets}
use tsi.Base.Text.{Text}
use tsi.UserCache.{UserCache, Os, get_uid_4user, get_home_4user}
use tsi.BecomeUser.Posix.{IsId, IsPosix, server_process}
use tsi.BecomeUser.Identity.{become_user-switching}
use tsi.BecomeUser.{
  Config, Process, Kernel, Session, cached, system_call, require, choose_groups, change_identity,
  verify_identity, set_environment, finish_switch, switch_to, become_user, restore_id,
}
use tsi.BecomeUser.Return.{CanRestore, called, system_call-called, root-IsId, restore_id-CanRestore}

module _ (os : Os) (config : Config) (kernel : Kernel) (posix : IsPosix kernel) where
  module _ (root : config.effective_uid ≡ pos 0) where
    abbrev IsRoot : Session → Type 0
    IsRoot s = s.process.euid ≡ pos 0

    abbrev Restorable : Session → Type 0
    Restorable s = CanRestore config s.process

    IsRoot-Restorable : (s : Session) → IsRoot s → Restorable s
    IsRoot-Restorable s h = inl h

    -- A test leaves the session alone.
    Leads-require : (P : Session → Type 0) (b : Bool) (e : Error) → Leads P P (require b e)
    unfolding require
    Leads-require P true e = record { at = λ s h. h }
    Leads-require P false e = record { at = λ s h. h }

    -- So does a call on the cache, as far as the process goes.
    IsRoot-cached {ℓ} : {A : Type ℓ} (m : Exec UserCache A) → Leads IsRoot IsRoot (cached m)
    IsRoot-cached m = record { at = λ s h. h }

    Restorable-cached {ℓ} :
        {A : Type ℓ} (m : Exec UserCache A) → Leads Restorable Restorable (cached m)
    Restorable-cached m = record { at = λ s h. h }

    Restorable-gets {ℓ} : {A : Type ℓ} (f : Session → A) → Leads Restorable Restorable (gets f)
    Restorable-gets f = record { at = λ s h. h }

    -- A later part of a chain that the process can be restored from.
    then-Restorable {ℓ κ} :
        {A : Type ℓ} {B : Type κ} {m : Exec Session A} {f : A → Exec Session B}
        → Leads Restorable Restorable m
        → ((a : A) → Leads Restorable Restorable (f a))
        → Leads Restorable Restorable (m >>= f)
    then-Restorable hm hf = Leads-bind Restorable Restorable Restorable hm hf (λ t k. k)

    -- A part of a chain before the system calls.
    then-IsRoot {ℓ κ} :
        {A : Type ℓ} {B : Type κ} {m : Exec Session A} {f : A → Exec Session B}
        → Leads IsRoot IsRoot m
        → ((a : A) → Leads IsRoot Restorable (f a))
        → Leads IsRoot Restorable (m >>= f)
    then-IsRoot hm hf = Leads-bind IsRoot IsRoot Restorable hm hf IsRoot-Restorable

    -- A call that leaves the effective uid alone, whether it succeeds or not.
    system_call-IsRoot :
        (f : Process → Option Process)
        → ((p q : Process) → f p ≡ some q → q.euid ≡ p.euid)
        → Leads IsRoot IsRoot (system_call f)
    system_call-IsRoot f keeps = record {
      at = λ s h. rw (system_call-called f s) (go s h (f s.process) (keeps s.process));
    }
      where
        go :
            (s : Session) (h : IsRoot s) (o : Option Process)
            → ((q : Process) → o ≡ some q → q.euid ≡ s.process.euid)
            → IsRoot (called o s).1
        go s h none same = h
        go s h (some q) same = same q refl ∙ h

    -- The last call keeps the way back open.
    setresuid-Restorable :
        (uid : ℤ)
        → Leads IsRoot Restorable (system_call (kernel.setresuid uid uid config.effective_uid))
    setresuid-Restorable uid = record {
      at = λ s h. rw (system_call-called (kernel.setresuid uid uid config.effective_uid) s) (
          go s h (kernel.setresuid uid uid config.effective_uid s.process) (λ q.
            posix.setresuid_saves uid uid config.effective_uid s.process q
              (root-IsId config root)));
    }
      where
        go :
            (s : Session) (h : IsRoot s) (o : Option Process)
            → ((q : Process) → o ≡ some q → q.suid ≡ config.effective_uid)
            → Restorable (called o s).1
        go s h none saved = inl h
        go s h (some q) saved = inr (saved q refl)

    change_identity-Restorable :
        (uid gid : ℤ) (gids : List ℤ)
        → Leads IsRoot Restorable (change_identity os config kernel uid gid gids)
    unfolding change_identity
    change_identity-Restorable uid gid gids =
        then-IsRoot (system_call-IsRoot (kernel.setgid gid) (posix.setgid_keeps gid)) λ _.
          then-IsRoot (system_call-IsRoot (kernel.setgroups gids) (posix.setgroups_keeps gids)) λ _.
            then-IsRoot (system_call-IsRoot (kernel.setegid gid) (posix.setegid_keeps gid))
              λ _. setresuid-Restorable uid

    set_environment-Restorable :
        (user : Text) (home : Option Text)
        → Leads Restorable Restorable (set_environment os config kernel user home)
    unfolding set_environment
    set_environment-Restorable user none = record { at = λ s h. h }
    set_environment-Restorable user (some home) = record { at = λ s h. h }

    verify_identity-Restorable :
        (user : Text) (uid gid : ℤ) (gids : List ℤ)
        → Leads Restorable Restorable (verify_identity os config kernel user uid gid gids)
    unfolding verify_identity
    verify_identity-Restorable user uid gid gids =
        then-Restorable (Restorable-gets (λ (s : Session). s.process)) λ p.
          then-Restorable (Leads-require Restorable _ _)
            λ _. then-Restorable (Leads-require Restorable _ _) λ _. Leads-require Restorable _ _

    finish_switch-Restorable :
        (user : Text) (uid gid : ℤ) (gids : List ℤ)
        → Leads Restorable Restorable (finish_switch os config kernel user uid gid gids)
    unfolding finish_switch
    finish_switch-Restorable user uid gid gids =
        then-Restorable (verify_identity-Restorable user uid gid gids) λ _.
          then-Restorable (Restorable-cached (get_home_4user os user)) λ home.
            then-Restorable (set_environment-Restorable user home) λ _. record { at = λ t k. k }

    switch_to-Restorable :
        (user primary : Text) (requested : List Text)
        → Leads IsRoot Restorable (switch_to os config kernel user primary requested)
    unfolding switch_to
    switch_to-Restorable user primary requested =
        then-IsRoot (IsRoot-cached (get_uid_4user os user)) λ uid.
          then-IsRoot (Leads-require IsRoot _ _) λ _. then-IsRoot (Leads-require IsRoot _ _) λ _.
            then-IsRoot (IsRoot-cached (choose_groups os config user primary requested)) λ chosen.
              Leads-bind IsRoot Restorable Restorable
                (change_identity-Restorable uid chosen.0 chosen.1)
                (λ _. finish_switch-Restorable user uid chosen.0 chosen.1) (λ t k. k)

    no_groups :
        (user : Text) (s : Session)
        → config.switch_uid ≡ true
        → become_user os config kernel user [] s ≡ (err index_error, s)
    unfolding become_user
    no_groups user s on = ground arith

    become_user-Restorable :
        (user : Text) (requested : List Text) (s : Session)
        → config.switch_uid ≡ true
        → IsRoot s
        → Restorable (become_user os config kernel user requested s).1
    become_user-Restorable user [] s on h = rw (no_groups user s on) (inl h)
    become_user-Restorable user (primary ∷ rest) s on h =
        rw (become_user-switching os config kernel user primary rest s on)
          ((switch_to-Restorable user primary (primary ∷ rest)).at s h)

-- A server that runs as root, with a valid gid, and switches, over a POSIX kernel, in which system calls may
-- fail: after an attempt to become any user with any groups, whether it returned or raised and at whichever
-- step, the system calls included, and after a command that leaves the effective and the saved uid alone, `restore_id` succeeds and gives the process the
-- server's uid, gid and group again, and the environment of nobody.
pub restore_id-become_user :
    (os : Os) (config : Config) (kernel : Kernel) (user : Text) (requested : List Text)
    (command : Session → Session) (s : Session)
    → IsPosix kernel
    → config.switch_uid ≡ true
    → config.effective_uid ≡ pos 0
    → IsId config.effective_gid
    → s.process.euid ≡ pos 0
    → ((t : Session) → (command t).process.euid ≡ t.process.euid)
    → ((t : Session) → (command t).process.suid ≡ t.process.suid)
    → restore_id os config kernel (command (become_user os config kernel user requested s).1) ≡ (
      ok tt,
      record (command (become_user os config kernel user requested s).1) {
        process = server_process config;
      },
    )
restore_id-become_user os config kernel user requested command s posix on root valid start
      keeps_euid keeps_suid =
    restore_id-CanRestore os config kernel posix root valid _ on
      (after_command (become_user-Restorable os config kernel posix root user requested s on start))
  where
    after_command :
        {t : Session} → CanRestore config t.process → CanRestore config (command t).process
    after_command {t} (inl e) = inl (keeps_euid t ∙ e)
    after_command {t} (inr e) = inr (keeps_suid t ∙ e)
