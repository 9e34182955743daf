-- ===== src/World.antt =====
-- A small system for the tests: one user, one group, and calls that follow POSIX.
use tsi.Base.{
  Option, none, some, [], ◌∷◌, true, false, text_beq, if◌then◌else◌, ◌==◌, ◌||◌, ◌&&◌, int_eq, ltb,
  leb, length, Bool,
}
use tsi.Base.Int.{ℤ, pos, negsuc}
use tsi.Base.Text.{Text, txt}
use tsi.UserCache.{Os, UserCache, seconds, empty_cache}
use tsi.BecomeUser.{Config, Process, Kernel, Session}

abbrev pub alice : Text
alice = txt "a"

abbrev pub staff : Text
staff = txt "s"

-- `alice` has the uid 7 and the gid 9; `staff` is the group 9, and `w` the group 5.
abbrev pub world : Os
world = record {
  now = 100;
  getpwnam = λ name.
      if text_beq name alice
      then some (record { uid = pos 7; gid = pos 9; home = txt "/a" })
      else none;
  getgrnam = λ name.
      if text_beq name staff
      then some (pos 9)
      else if text_beq name (txt "w")
      then some (pos 5)
      else none;
  getgrall = [];
  run_command = λ _. (false, []);
}

abbrev pub cache : UserCache
cache = empty_cache (seconds 60) false

abbrev pub config : Config
config = record {
  switch_uid = true;
  effective_uid = pos 0;
  effective_gid = pos 0;
  enforce_os_gids = true;
  fail_on_invalid_gids = true;
}

abbrev pub lenient : Config
lenient = record config { fail_on_invalid_gids = false }

abbrev pub root : Process
root = record {
  ruid = pos 0;
  euid = pos 0;
  suid = pos 0;
  rgid = pos 0;
  egid = pos 0;
  sgid = pos 0;
  groups = pos 0 ∷ [];
  env_home = [];
  env_user = [];
  env_logname = [];
}

abbrev pub session : Session
session = record { cache = cache; process = root }

-- A call that root may make.
abbrev privileged : (Process → Process) → Process → Option Process
privileged f p = if p.euid == pos 0 then some (f p) else none

-- The ids that the system calls take, and what -1 leaves alone.
abbrev is_id : ℤ → Bool
is_id (pos n) = ltb n 4294967295
is_id (negsuc n) = false

abbrev changed : ℤ → ℤ → ℤ
changed old (pos n) = pos n
changed old (negsuc n) = old

abbrev may_set : Process → ℤ → Bool
may_set p (pos n) = p.ruid == pos n || p.euid == pos n || p.suid == pos n
may_set p (negsuc n) = true

abbrev pub kernel : Kernel
kernel = record {
  setgid = λ g p.
      if is_id g then privileged (λ q. record q { rgid = g; egid = g; sgid = g }) p else none;
  setegid = λ g p. if is_id g then privileged (λ q. record q { egid = g }) p else none;
  setgroups =
      λ gs p. if leb (length gs) 65536 then privileged (λ q. record q { groups = gs }) p else none;
  setresuid = λ r e s p.
      if p.euid == pos 0 || (may_set p r && may_set p e && may_set p s)
      then some
          (record p { ruid = changed p.ruid r; euid = changed p.euid e; suid = changed p.suid s })
      else none;
}
