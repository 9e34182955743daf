-- ===== src/BecomeUser/Posix.antt =====
-- What POSIX says of the system calls that lib/BecomeUser.py makes, and the identity of the server.
use tsi.Base.{◌≡◌, ℕ, ◌<◌, some, List, [], ◌∷◌}
use tsi.Base.Int.{ℤ, pos}
use tsi.Base.Text.{txt}
use tsi.BecomeUser.{Config, Process, Kernel}

-- A uid or a gid of 32 bits. The last number is the -1 that stands for no change.
abbrev pub IsId : ℤ → Type 0
IsId z = (n : ℕ) × (z ≡ pos n) × (n < 4294967295)

-- Any call may fail for arguments that it does not take. One for the groups leaves the uids alone, and a
-- `setresuid` that succeeds sets the saved uid, unless it is to stay. What has to succeed is this: a process
-- whose effective uid is 0 may take any id, and have it as its only group, and any process may set its uids to
-- its saved one.
pub record IsPosix (k : Kernel) : Type 0 where
  pub setgid_keeps : (g : ℤ) (p q : Process) → k.setgid g p ≡ some q → q.euid ≡ p.euid
  pub setegid_keeps : (g : ℤ) (p q : Process) → k.setegid g p ≡ some q → q.euid ≡ p.euid
  pub setgroups_keeps : (gs : List ℤ) (p q : Process) → k.setgroups gs p ≡ some q → q.euid ≡ p.euid
  pub setresuid_saves :
      (r e s : ℤ) (p q : Process) → IsId s → k.setresuid r e s p ≡ some q → q.suid ≡ s
  pub setgid :
      (g : ℤ) (p : Process)
      → IsId g
      → p.euid ≡ pos 0
      → k.setgid g p ≡ some (record p { rgid = g; egid = g; sgid = g })
  pub setegid :
      (g : ℤ) (p : Process) → IsId g → p.euid ≡ pos 0 → k.setegid g p ≡ some (record p { egid = g })
  pub setgroups :
      (g : ℤ) (p : Process)
      → IsId g
      → p.euid ≡ pos 0
      → k.setgroups (g ∷ []) p ≡ some (record p { groups = g ∷ [] })
  pub setresuid :
      (z : ℤ) (p : Process)
      → IsId z
      → p.euid ≡ pos 0
      → k.setresuid z z z p ≡ some (record p { ruid = z; euid = z; suid = z })
  pub setresuid_saved :
      (z : ℤ) (p : Process)
      → IsId z
      → p.suid ≡ z
      → k.setresuid z z z p ≡ some (record p { ruid = z; euid = z; suid = z })

-- The identity of the server.
abbrev pub server_process : Config → Process
server_process config = record {
  ruid = config.effective_uid;
  euid = config.effective_uid;
  suid = config.effective_uid;
  rgid = config.effective_gid;
  egid = config.effective_gid;
  sgid = config.effective_gid;
  groups = config.effective_gid ∷ [];
  env_home = txt "/tmp";
  env_user = txt "nobody";
  env_logname = txt "nobody";
}
