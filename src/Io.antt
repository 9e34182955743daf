-- ===== src/Io.antt =====
-- lib/IO.py: chunks of files over the data channel, listings, and the free space.
pub mod Chunks
pub mod Putting
pub mod Written
pub mod Stored
pub mod Reading
pub mod Sent
pub mod Info
pub mod Permissions
pub mod Listing
pub mod DepthFirst
pub mod Framed
pub mod Space
pub mod Columns
mod Tests
use tsi.Base.{ℕ, Bool, List, Option, none, some}
use tsi.Base.Int.{ℤ}
use tsi.Base.Dict.{Dict}
use tsi.Base.Exec.{Result, err, attribute_error, ok, type_error, value_error}
use tsi.Base.Text.{Text, parse_int}
use tsi.Connector.{Connector}
use tsi.Connector.Data.{Bytes}
use tsi.Utils.{Environment}

-- The channels, the contents of the files, and the modes that were set.
pub record Session : Type 0 where
  pub connector : Connector
  pub data_in : Bytes
  pub data_out : Bytes
  pub files : Dict Text Bytes
  pub chmods : List (Text × ℤ)

-- What the machine decides: which files may be opened, which modes may be set, whether a file can be positioned, and how many
-- bytes a read of a file, a write to it and a write to the data channel move at most, by their number.
pub record Device : Type 0 where
  pub environment : Environment
  pub may_open : Text → Bool
  pub may_chmod : Text → ℤ → Bool
  pub seekable : Text → Bool
  pub read_amount : ℕ → ℕ
  pub write_amount : ℕ → ℕ
  pub send_amount : ℕ → ℕ

-- A path: `expand_variables(None)` is an `AttributeError`.
unfoldable pub text_of : Option Text → Result Text
text_of none = err attribute_error
text_of (some s) = ok s

unfoldable pub number_of_text : Option ℤ → Result ℤ
number_of_text none = err value_error
number_of_text (some n) = ok n

-- `int(value)`
unfoldable pub int_of : Option Text → Result ℤ
unfolding number_of_text
int_of none = err type_error
int_of (some s) = number_of_text (parse_int s)
