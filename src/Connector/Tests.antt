-- ===== src/Connector/Tests.antt =====
-- The channel, run.
use tsi.Base.{◌≡◌, refl, some, List, [], ◌∷◌, ◌++◌, text_beq}
use tsi.Base.Exec.{ok}
use tsi.Base.Text.{Text, txt, newline}
use tsi.Utils.Parameters.{unlines}
use tsi.Connector.{Connector, open_connector, read_message, end_of_message}
use tsi.Connector.Framing.{read_message-unlines}
use tsi.Connector.Stream.{StreamConnector, Base64, stream_lines, read_data, write_data}
use tsi.Connector.Encoded.{read_data-write_data}

abbrev request : List Text
request = txt "#X" ∷ txt "y" ∷ []

abbrev channel : Connector
channel = record {
  control_in = unlines request ++ (end_of_message ++ newline ∷ txt "z");
  control_out = [];
}

read_message-unlines_example :
    read_message channel ≡ (ok (unlines request), record channel { control_in = txt "z" })
unfolding text_beq
read_message-unlines_example =
    read_message-unlines channel request (txt "z")
      (((refl, (refl, tt)), refl), (((refl, tt), refl), tt)) refl

-- An encoding of single bytes by a digit.
abbrev one_digit : Base64
one_digit = record { encoded = λ bytes. txt "7"; decoded = λ body. some (7 ∷ []) }

abbrev fresh_stream : StreamConnector
fresh_stream = record { in_stream = []; out_stream = [] }

read_data-write_data_example :
    read_data one_digit (record {
      in_stream =
          stream_lines (write_data one_digit (7 ∷ []) fresh_stream).1.out_stream ++ txt "x\n" ∷ [];
      out_stream = [];
    })
    ≡ (ok (7 ∷ []), record { in_stream = txt "x\n" ∷ []; out_stream = [] })
unfolding text_beq tsi.Base.Text.strip
read_data-write_data_example =
    read_data-write_data one_digit (7 ∷ []) (txt "x\n" ∷ []) fresh_stream (refl, tt) refl refl refl

-- A client that ends its lines by a carriage return and a newline is understood.
windows_lines :
    (read_message
      (open_connector (txt "#X" ++ 13 ∷ newline ∷ (end_of_message ++ 13 ∷ newline ∷ txt "z")))).0
    ≡ ok (unlines (txt "#X" ∷ []))
unfolding open_connector read_message text_beq
windows_lines = refl
