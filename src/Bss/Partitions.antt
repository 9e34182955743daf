-- ===== src/Bss/Partitions.antt =====
-- slurm/BSS.py, parse_partitions, and the request of lib/BSSCommon.py that it answers.
use tsi.Base.{
  ℕ, Option, none, some, List, [], ◌∷◌, ◌++◌, Bool, true, false, not, ◌==◌, text_eq, nat_eq,
  if◌then◌else◌,
}
use tsi.Base.Int.{ℤ}
use tsi.Base.Dict.{Dict, lookup, insert}
use tsi.Base.Exec.{Result, ok, err, value_error, type_error}
use tsi.Base.Text.{Text, newline, is_space, split, parse_int}
use tsi.Connector.{Connector, failed, reply_ok}

pub record Partition : Type 0 where
  pub nodes : ℤ
  pub is_default : Bool

abbrev begins_word : Text → Bool
begins_word [] = false
begins_word (c ∷ s) = not (is_space c)

abbrev join_word : ℕ → List Text → List Text
join_word c [] = (c ∷ []) ∷ []
join_word c (w ∷ ws) = (c ∷ w) ∷ ws

-- `line.split()`
unfoldable pub words : Text → List Text
words [] = []
words (c ∷ s) =
    let more = words s in
    if is_space c then more else if begins_word s then join_word c more else ((c ∷ []) ∷ more)

-- The name without the star that marks the default partition.
unfoldable pub partition_name : Text → Text × Bool
partition_name [] = ([], false)
partition_name (c ∷ []) = if c == b'*' then ([], true) else (c ∷ [], false)
partition_name (c ∷ d ∷ s) = let (name, star) = partition_name (d ∷ s) in (c ∷ name, star)

-- An entry that is there already is a dictionary, and cannot be added to a number.
unfoldable pub add_partition :
    Text × Bool → Option ℤ → Dict Text Partition → Result (Dict Text Partition)
add_partition (name, star) none result = err value_error
add_partition (name, star) (some n) result = elim (lookup name result) [
  | some have_nodes ↦ err type_error
  | none ↦ ok (insert name (record { nodes = n; is_default = star }) result)
]

-- A line of other than two words is passed over.
unfoldable pub add_words : List Text → Dict Text Partition → Result (Dict Text Partition)
unfolding add_partition
add_words (p_name ∷ nodes ∷ []) result =
    add_partition (partition_name p_name) (parse_int nodes) result
add_words _ result = ok result

unfoldable pub add_partitions : List Text → Dict Text Partition → Result (Dict Text Partition)
unfolding add_words
add_partitions [] result = ok result
add_partitions (line ∷ lines) result = elim (add_words (words line) result) [
  | err e ↦ err e
  | ok more ↦ add_partitions lines more
]

unfoldable pub parse_partitions : Text → Result (Dict Text Partition)
unfolding add_partitions
parse_partitions raw_info = add_partitions (split newline raw_info) []

-- `dumps` writes the dictionary out.
unfoldable pub report_partitions :
    (Dict Text Partition → Text)
    → Result (Dict Text Partition)
    → Connector
    → Result (Unit {0}) × Connector
report_partitions dumps (err e) c = (err e, c)
report_partitions dumps (ok result) c = (ok tt, reply_ok (some (dumps result ++ newline ∷ [])) c)

unfoldable pub get_partitions :
    (Dict Text Partition → Text)
    → (Text → Bool × Text)
    → Text
    → Connector
    → Result (Unit {0}) × Connector
unfolding parse_partitions report_partitions
get_partitions dumps run_command cmd c =
    let (success, output) = run_command cmd in
    let reported = report_partitions dumps (parse_partitions output) c in
    if success then reported else (ok tt, failed (some output) c)
