-- ===== src/Bss.antt =====
-- lib/BSSCommon.py and the batch systems: child processes, states of jobs, and the listing.
pub mod Children
pub mod Listing
pub mod States
pub mod Submit
pub mod Replies
pub mod Scripts
pub mod Slurm
pub mod Torque
pub mod Lsf
pub mod Partitions
pub mod Columns
pub mod Control
pub mod Nobatch
pub mod JobNames
pub mod Times
pub mod Details
mod Tests
use tsi.Base.{
  ℕ, zero, suc, ◌+◌, Option, none, some, List, [], ◌∷◌, ◌++◌, Bool, true, false, ◌==◌, text_eq,
  nat_eq, int_eq,
}
use tsi.Base.{contains, if◌then◌else◌, length, ltb}
use tsi.Base.Int.{ℤ}
use tsi.Base.Dict.{Dict, lookup, insert}
use tsi.Base.Text.{Text, txt, newline}
use tsi.Connector.{Connector, failed, reply_ok}
use tsi.Utils.{extract_parameter}

-- What `os.waitpid(pid, WNOHANG)` says: the child has ended, it runs, or it is none of ours.
pub data Waited : Type 0 where
  ended running no_child : Waited

abbrev pub is_finished : Waited → Bool
is_finished ended = true
is_finished running = false
is_finished no_child = true

-- `children[i]`
unfoldable pub child_at : ℕ → List ℤ → Option ℤ
child_at i [] = none
child_at zero (c ∷ cs) = some c
child_at (suc i) (c ∷ cs) = child_at i cs

-- `children.remove(child)`
unfoldable pub remove : ℤ → List ℤ → List ℤ
remove child [] = []
remove child (c ∷ cs) = let rest = remove child cs in if c == child then cs else c ∷ rest

unfoldable pub reap : Bool → ℤ → List ℤ → List ℤ
unfolding remove
reap true child children = remove child children
reap false child children = children

module _ (waitpid : ℤ → Waited) where
  -- The list is changed while it is iterated: the iteration goes on at the next index.
  unfoldable pub cleanup_from : ℕ → ℕ → List ℤ → List ℤ
  unfolding child_at reap
  cleanup_from zero i children = children
  cleanup_from (suc n) i children = elim (child_at i children) [
    | none ↦ children
    | some child ↦ cleanup_from n (suc i) (reap (is_finished (waitpid child)) child children)
  ]

  unfoldable pub cleanup : List ℤ → List ℤ
  unfolding cleanup_from
  cleanup children = cleanup_from (length children) 0 children

-- The states of a job that UNICORE/X knows.
pub data Status : Type 0 where
  completed queued suspended is_running unknown : Status

-- The index in `__ustates`.
abbrev pub rank : Status → ℕ
rank completed = 0
rank queued = 1
rank suspended = 2
rank is_running = 3
rank unknown = 4

abbrev pub status_text : Status → Text
status_text completed = txt "COMPLETED"
status_text queued = txt "QUEUED"
status_text suspended = txt "SUSPENDED"
status_text is_running = txt "RUNNING"
status_text unknown = txt "UNKNOWN"

-- The first row that lists the state of the batch system.
unfoldable pub decode : Dict Status (List Text) → Text → Status
decode [] state = unknown
decode ((s, states) ∷ more) state =
    let rest = decode more state in if contains states state then s else rest

-- What `extract_info` gives for a line of a listing: the id, the state and the queue.
pub record Info : Type 0 where
  pub bssid : Text
  pub state : Text
  pub queue_name : Text

pub record Entry : Type 0 where
  pub ustate : Status
  pub queue_name : Text
  pub original_state : Text

module _ (convert_status : Text → Status) where
  abbrev pub entry_of : Info → Entry
  entry_of info = record {
    ustate = convert_status info.state;
    queue_name = info.queue_name;
    original_state = info.state;
  }

  -- A later line of a job counts only with a higher state.
  unfoldable pub merge : Text → Entry → Option Entry → Dict Text Entry → Dict Text Entry
  merge bssid new none states = insert bssid new states
  merge bssid new (some have) states =
      if ltb (rank have.ustate) (rank new.ustate) then insert bssid new states else states

  -- A line without an id is passed over.
  unfoldable pub add_line : Option Info → Dict Text Entry → Dict Text Entry
  unfolding merge
  add_line none states = states
  add_line (some info) states = merge info.bssid (entry_of info) (lookup info.bssid states) states

  unfoldable pub collect_states : List (Option Info) → Dict Text Entry → Dict Text Entry
  unfolding add_line
  collect_states [] states = states
  collect_states (line ∷ more) states = collect_states more (add_line line states)

abbrev reply_line : Text → Entry → Text
reply_line bssid e =
    b' '
    ∷ (bssid
        ++ (b' '
            ∷ (status_text e.ustate
                ++ (b' ' ∷ (e.queue_name ++ (b' ' ∷ (e.original_state ++ newline ∷ [])))))))

unfoldable pub listing : Dict Text Entry → Text
listing [] = []
listing ((bssid, e) ∷ states) = reply_line bssid e ++ listing states

-- The lines stand for what `extract_info` gives for each.
unfoldable pub parse_status_listing : (Text → Status) → List (Option Info) → Text
unfolding collect_states listing
parse_status_listing convert_status lines =
    txt "QSTAT" ++ (newline ∷ listing (collect_states convert_status lines []))

-- The outcome of a command is its success flag and its output.
unfoldable pub run_and_report : (Text → Bool × Text) → Text → Connector → Connector
run_and_report run_command cmd c =
    let (success, output) = run_command cmd in
    if success then reply_ok (some output) c else failed (some output) c

module _ (run_command : Text → Bool × Text) where
  unfoldable pub get_status_listing :
      (Text → Status) → (Text → List (Option Info)) → Text → Connector → Connector
  get_status_listing convert_status extract_lines qstat_cmd c =
      let (success, output) = run_command qstat_cmd in
      if success
      then reply_ok (some (parse_status_listing convert_status (extract_lines output))) c
      else failed (some output) c

  unfoldable pub get_process_listing : Text → Text → Connector → Connector
  get_process_listing get_processes_cmd msg c =
      elim (extract_parameter msg (txt "PS") (some get_processes_cmd)) [
        | none ↦ c
        | some ps_cmd ↦ run_and_report run_command ps_cmd c
      ]
