-- ===== src/Connector/Stream.antt =====
-- lib/Connector.py: StreamConnector, which talks over the standard streams.
use tsi.Base.{
  ℕ, Option, none, some, List, [], ◌∷◌, ◌++◌, ◌==◌, nat_eq, text_eq, if◌then◌else◌, length,
}
use tsi.Base.Exec.{Result, ok, err, value_error}
use tsi.Base.Text.{Text, txt, newline, strip, starts_with}
use tsi.Base.Format.{substitute, cut_at}
use tsi.Connector.Data.{Bytes}

-- The lines that are still to be read, each with its newline, and what was written.
pub record StreamConnector : Type 0 where
  pub in_stream : List Text
  pub out_stream : Text

-- Base64 as the library writes and reads it; `none` is its error, which is a `ValueError`.
pub record Base64 : Type 0 where
  pub encoded : Bytes → Text
  pub decoded : Text → Option Bytes

-- `for line in in_stream`: the lines of a text, with their newlines.
abbrev pub begin_line : ℕ → List Text → List Text
begin_line c [] = (c ∷ []) ∷ []
begin_line c (l ∷ ls) = (c ∷ l) ∷ ls

unfoldable pub stream_lines : Text → List Text
stream_lines [] = []
stream_lines (c ∷ s) =
    let rest = stream_lines s in if c == newline then (newline ∷ []) ∷ rest else begin_line c rest

-- The lines up to the one that ends the message, or all that are left.
unfoldable pub read_until : Text → List Text → Text × List Text
read_until termination [] = ([], [])
read_until termination (line ∷ lines) =
    let (message, rest) = read_until termination lines in
    if strip line == termination then ([], lines) else (line ++ message, rest)

unfoldable pub read_message : Text → StreamConnector → Text × StreamConnector
unfolding read_until
read_message termination c =
    let (message, rest) = read_until termination c.in_stream in
    (message, record c { in_stream = rest })

unfoldable pub write_message : Text → StreamConnector → StreamConnector
write_message message c = record c { out_stream = c.out_stream ++ (message ++ newline ∷ []) }

-- `None` has no `replace`, which is an `AttributeError` here, other than in Connector.
unfoldable pub failed : Text → StreamConnector → StreamConnector
unfolding write_message
failed message c = write_message (txt "TSI_FAILED: " ++ substitute newline b':' message) c

unfoldable pub reply_ok : Option Text → StreamConnector → StreamConnector
unfolding write_message
reply_ok none c = write_message (txt "TSI_OK") c
reply_ok (some message) c = write_message message (write_message (txt "TSI_OK") c)

module _ (base64 : Base64) where
  unfoldable pub decode : Text → Result Bytes
  decode body = elim (base64.decoded body) [ none ↦ err value_error | some bytes ↦ ok bytes ]

  -- The first line of a block says that the rest is base64.
  unfoldable pub parse_block : Text → Result Bytes
  unfolding decode
  parse_block block = elim (cut_at newline block) [
    | none ↦ err value_error
    | some (header, body) ↦
        if starts_with header (txt "---BEGIN DATA BASE64") then decode body else err value_error
  ]

  unfoldable pub read_data : StreamConnector → Result Bytes × StreamConnector
  unfolding parse_block read_message
  read_data c =
      let (block, rest) = read_message (txt "---END DATA---") c in (parse_block block, rest)

  unfoldable pub write_data : Bytes → StreamConnector → ℕ × StreamConnector
  unfolding write_message
  write_data bytes c = (
    length bytes,
    write_message (txt "---END DATA---")
        (write_message (base64.encoded bytes) (write_message (txt "---BEGIN DATA BASE64---") c)),
  )
