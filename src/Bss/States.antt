-- ===== src/Bss/States.antt =====
-- slurm/BSS.py, torque/BSS.py, lsf/BSS.py: the states of the batch systems.
use tsi.Base.{List, [], ◌∷◌, contains, text_eq, if◌then◌else◌}
use tsi.Base.Dict.{Dict}
use tsi.Base.Text.{Text, txt}
use tsi.Bss.{Status, queued, is_running, suspended, completed, unknown, decode}

-- slurm/BSS.py
abbrev pub decoders : Dict Status (List Text)
decoders =
    (
      queued,
      txt "CONFIGURING"
          ∷ txt "PENDING"
          ∷ txt "RESV_DEL_HOLD"
          ∷ txt "REQUEUE_FED"
          ∷ txt "REQUEUE_HOLD"
          ∷ [],
    )
    ∷ (is_running, txt "COMPLETING" ∷ txt "RUNNING" ∷ txt "SIGNALING" ∷ txt "STAGE_OUT" ∷ [])
    ∷ (suspended, txt "PREEMPTED" ∷ txt "STOPPED" ∷ txt "SUSPENDED" ∷ [])
    ∷ (
      completed,
      txt "BOOT_FAIL"
          ∷ txt "CANCELLED"
          ∷ txt "COMPLETED"
          ∷ txt "DEADLINE"
          ∷ txt "FAILED"
          ∷ txt "NODE_FAIL"
          ∷ txt "OUT_OF_MEMORY"
          ∷ txt "REVOKED"
          ∷ txt "TIMEOUT"
          ∷ [],
    )
    ∷ []

pub slurm_status : Text → Status
slurm_status bss_state = decode decoders bss_state

-- torque/BSS.py
pub torque_status : Text → Status
torque_status bss_state =
    if contains (txt "Q" ∷ txt "T" ∷ txt "W" ∷ []) bss_state
    then queued
    else if contains (txt "E" ∷ txt "R" ∷ []) bss_state
    then is_running
    else if contains (txt "S" ∷ txt "H" ∷ []) bss_state
    then suspended
    else if contains (txt "C" ∷ txt "F" ∷ []) bss_state
    then completed
    else unknown

-- lsf/BSS.py
pub lsf_status : Text → Status
lsf_status bss_state =
    if contains (txt "PEND" ∷ txt "WAIT" ∷ txt "ZOMBI" ∷ []) bss_state
    then queued
    else if contains (txt "RUN" ∷ txt "POST_DONE" ∷ txt "POST_ERR" ∷ []) bss_state
    then is_running
    else if contains (txt "PSUSP" ∷ txt "USUSP" ∷ txt "SSUSP" ∷ []) bss_state
    then suspended
    else if contains (txt "DONE" ∷ txt "EXIT" ∷ []) bss_state
    then completed
    else unknown
