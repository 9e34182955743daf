-- ===== src/Connector.antt =====
-- lib/Connector.py: the command and data channels to UNICORE/X.
pub mod Data
pub mod Stream
pub mod Encoded
pub mod Forwarding
pub mod Framing
pub mod Shrinking
mod Tests
use tsi.Base.{
  Option, none, some, List, [], ◌∷◌, ◌++◌, Bool, true, false, ◌==◌, text_eq, nat_eq, ℕ, leb, ◌&&◌,
}
use tsi.Base.{if◌then◌else◌, take, drop, length, zero, suc, ◌-◌}
use tsi.Base.Exec.{Result, ok, err, os_error}
use tsi.Base.Text.{Text, txt, newline}
use tsi.Base.Format.{substitute, cut_at}

-- What the worker has written to the control channel, and the text that is still to be read from it: the one that
-- `makefile("r")` hands out, which is decoded, and whose ends of lines are all a newline.
pub record Connector : Type 0 where
  pub control_in : Text
  pub control_out : Text

-- The ends of lines as `makefile("r")` hands them out: a carriage return is one, and a newline directly after it is
-- no other. The flag tells whether a carriage return stood before.
unfoldable pub translated : Bool → Text → Text
translated after_return [] = []
translated after_return (c ∷ s) =
    let rest = translated (c == 13) s in
    if c == 13 then newline ∷ rest else if after_return && (c == newline) then rest else c ∷ rest

-- The channel over what the socket receives, which is decoded already.
unfoldable pub open_connector : Text → Connector
unfolding translated
open_connector received = record { control_in = translated false received; control_out = [] }

unfoldable pub write_message : Text → Connector → Connector
write_message message c = record c { control_out = c.control_out ++ (message ++ newline ∷ []) }

-- One line, whatever the message.
unfoldable pub failed_text : Option Text → Text
unfolding substitute
failed_text none = txt "TSI_FAILED: "
failed_text (some message) = txt "TSI_FAILED: " ++ substitute newline b':' message

unfoldable pub failed : Option Text → Connector → Connector
unfolding failed_text write_message
failed message c = write_message (failed_text message) c

unfoldable pub ok_text : Option Text → Text
ok_text none = txt "TSI_OK"
ok_text (some message) = txt "TSI_OK" ++ newline ∷ message

unfoldable pub reply_ok : Option Text → Connector → Connector
unfolding ok_text write_message
reply_ok message c = write_message (ok_text message) c

abbrev pub end_of_message : Text
end_of_message = txt "ENDOFMESSAGE"

-- `readline` returns a line with its newline, the unterminated rest at the end, or nothing. Without
-- the terminating line the loop ends by the error "Socket closed". The number bounds the lines.
read_lines : ℕ → Text → Text → Option (Text × Text)
unfolding cut_at
read_lines zero message input = none
read_lines (suc n) message input = elim (cut_at newline input) [
  | none ↦ none
  | some (line, rest) ↦ elim (line == end_of_message) [
    | true ↦ some (message, rest)
    | false ↦ read_lines n (message ++ (line ++ newline ∷ [])) rest
  ]
]

-- The message, or the `IOError`. A text has fewer lines than its length plus one.
unfoldable pub read_message : Connector → Result Text × Connector
unfolding read_lines
read_message c = elim (read_lines (suc (length c.control_in)) [] c.control_in) [
  | none ↦ (err os_error, record c { control_in = [] })
  | some (message, rest) ↦ (ok message, record c { control_in = rest })
]
