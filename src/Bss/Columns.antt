-- ===== src/Bss/Columns.antt =====
-- torque/BSS.py and lib/BSS.py: the lines of their listings.
use tsi.Base.{
  ℕ, zero, suc, Option, none, some, [], ◌∷◌, Bool, ◌==◌, nat_eq, if◌then◌else◌, drop, map, ◌&&◌,
  ◌||◌,
}
use tsi.Base.Text.{Text, txt, is_space, is_digit, lstrip, starts_with}
use tsi.Base.Lines.{splitlines, span, with_run, is_word, is_name}
use tsi.Bss.{Info, parse_status_listing}
use tsi.Bss.States.{torque_status}
use tsi.Bss.Nobatch.{convert_status}

-- White space and a word, and then something of the rest.
abbrev column : Text → (Text → Text → Option Info) → Option Info
column s f = with_run is_space s (λ space rest. with_run is_word rest f)

-- Some columns that are passed over.
unfoldable pub skip_columns : ℕ → Text → (Text → Option Info) → Option Info
unfolding with_run
skip_columns zero s f = f s
skip_columns (suc n) s f = column s (λ word rest. skip_columns n rest f)

-- `[CEHQRTWS]`: F is not among them.
abbrev pub is_state : ℕ → Bool
is_state c =
    (c == b'C')
    || (c == b'E')
    || (c == b'H')
    || (c == b'Q')
    || (c == b'R')
    || (c == b'T')
    || (c == b'W')
    || (c == b'S')

-- What stands behind the number of a job: a dot, its host, the user, the queue, six columns, the state, and
-- one more.
unfoldable pub torque_columns : Text → Text → Option Info
unfolding skip_columns
torque_columns bssid [] = none
torque_columns bssid (c ∷ s) =
    if c == b'.'
    then with_run is_word s (λ host s1. skip_columns 1 s1 (λ s2. column s2 (λ queue_name s3.
      skip_columns 6 s3 (λ s4. with_run is_space s4 (λ space s5. with_run is_state s5 (λ state s6.
        column s6 (λ elapsed s7.
          some (record { bssid = bssid; state = state; queue_name = queue_name }))))))))
    else none

-- The pattern at one place.
unfoldable pub torque_here : Text → Option Info
unfolding torque_columns
torque_here s = with_run is_digit (lstrip s) torque_columns

-- `re.search`: the first place where the pattern matches.
unfoldable pub torque_info : Text → Option Info
unfolding torque_here
torque_info [] = none
torque_info (c ∷ s) =
    let later = torque_info s in elim (torque_here (c ∷ s)) [ none ↦ later | some info ↦ some info ]

-- The digits behind the last `UNICORE_Job_` that has some: `.*` takes as much as it can.
unfoldable pub last_job : Text → Option Text
unfolding span
last_job [] = none
last_job (c ∷ s) =
    let later = last_job s in
    let digits = (span is_digit (drop 12 (c ∷ s))).0 in
    let here = starts_with (c ∷ s) (txt "UNICORE_Job_") in
    elim later [
      | some id ↦ some id
      | none ↦ if here then elim digits [ [] ↦ none | d ∷ ds ↦ some (d ∷ ds) ] else none
    ]

unfoldable pub nobatch_here : Text → Option Info
unfolding last_job
nobatch_here (c ∷ d ∷ s) =
    if is_name c && (d == b' ')
    then elim (last_job s) [
      | none ↦ none
      | some id ↦ some (record { bssid = id; state = c ∷ []; queue_name = txt "NOBATCH" })
    ]
    else none
nobatch_here _ = none

-- `(\w) .*UNICORE_Job_(\d+).*`, searched
unfoldable pub nobatch_info : Text → Option Info
unfolding nobatch_here
nobatch_info [] = none
nobatch_info (c ∷ s) =
    let later = nobatch_info s in
    elim (nobatch_here (c ∷ s)) [ none ↦ later | some info ↦ some info ]

-- The replies to a request for the states of all jobs.
unfoldable pub torque_listing : Text → Text
unfolding torque_info
torque_listing qstat_result =
    parse_status_listing torque_status (map torque_info (splitlines qstat_result))

unfoldable pub nobatch_listing : Text → Text
unfolding nobatch_info
nobatch_listing qstat_result =
    parse_status_listing convert_status (map nobatch_info (splitlines qstat_result))
