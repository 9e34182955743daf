-- ===== src/Connector/Encoded.antt =====
-- What lib/Connector.py's StreamConnector writes as a block of data is read back.
use tsi.Base.{◌≡◌, refl, ap, ◌∙◌, some, List, [], ◌∷◌, ◌++◌, false, ◌==◌, nat_eq, text_eq, text_beq}
use mathlib.Core.List.{append_assoc, append-nil}
use tsi.Base.Exec.{ok}
use tsi.Base.Text.{Text, txt, newline, strip, starts_with}
use tsi.Base.Format.{cut_at}
use tsi.Connector.Data.{Bytes}
use tsi.Connector.Stream.{
  StreamConnector, Base64, stream_lines, read_until, read_message, write_message, parse_block,
  decode, read_data, write_data, begin_line,
}
use tsi.Utils.Parameters.{OneLine}

stream_lines-line :
    (l s : Text)
    → OneLine l
    → stream_lines (l ++ newline ∷ s) ≡ (l ++ newline ∷ []) ∷ stream_lines s
unfolding stream_lines
stream_lines-line [] s h = refl
stream_lines-line (c ∷ l) s (h, rest) =
    rw (h, stream_lines) (ap (begin_line c) (stream_lines-line l s rest))

abbrev header_line : Text
header_line = txt "---BEGIN DATA BASE64---\n"

abbrev end_line : Text
end_line = txt "---END DATA---\n"

-- The three lines of a block.
written-lines :
    (line : Text)
    → OneLine line
    → stream_lines ((header_line ++ (line ++ newline ∷ [])) ++ end_line)
      ≡ header_line ∷ (line ++ newline ∷ []) ∷ end_line ∷ []
unfolding stream_lines
written-lines line h =
    ap (λ s. stream_lines (header_line ++ s)) (append_assoc line (newline ∷ []) end_line)
    ∙ ap (λ ls. header_line ∷ ls) (stream_lines-line line end_line h)

read_until-block :
    (line : Text) (rest : List Text)
    → (strip (line ++ newline ∷ []) == txt "---END DATA---") ≡ false
    → read_until (txt "---END DATA---") (header_line ∷ (line ++ newline ∷ []) ∷ end_line ∷ rest)
      ≡ (header_line ++ (line ++ newline ∷ []), rest)
unfolding read_until strip text_beq
read_until-block line rest h =
    rw (h, read_until) (ap (λ m. (header_line ++ m, rest)) (append-nil (line ++ newline ∷ [])))

parse_block-header :
    (base64 : Base64) (body : Text) (bytes : Bytes)
    → base64.decoded body ≡ some bytes
    → parse_block base64 (header_line ++ body) ≡ ok bytes
unfolding parse_block cut_at decode starts_with
parse_block-header base64 body bytes h = rw (h, decode) refl

abbrev stream_of : List Text → StreamConnector
stream_of lines = record { in_stream = lines; out_stream = [] }

-- A block that write_data has written on a stream is read back by read_data as the same bytes, and what
-- follows it on the stream stays there. This is for an encoding whose text is one line, that is not the line
-- that ends a block, and that is decoded to the bytes again.
pub read_data-write_data :
    (base64 : Base64) (bytes : Bytes) (rest : List Text) (c : StreamConnector)
    → OneLine (base64.encoded bytes)
    → (strip (base64.encoded bytes ++ newline ∷ []) == txt "---END DATA---") ≡ false
    → base64.decoded (base64.encoded bytes ++ newline ∷ []) ≡ some bytes
    → c.out_stream ≡ []
    → read_data base64 (record {
      in_stream = stream_lines (write_data base64 bytes c).1.out_stream ++ rest;
      out_stream = [];
    })
      ≡ (ok bytes, record { in_stream = rest; out_stream = [] })
unfolding read_data read_message write_data write_message
read_data-write_data base64 bytes rest c one_line no_end back empty =
    let line = base64.encoded bytes in
    let stream : stream_lines (write_data base64 bytes c).1.out_stream ++ rest
        ≡ header_line ∷ (line ++ newline ∷ []) ∷ end_line ∷ rest =
      ap (λ o. stream_lines (((o ++ header_line) ++ (line ++ newline ∷ [])) ++ end_line) ++ rest)
        empty
      ∙ ap (λ ls. ls ++ rest) (written-lines line one_line) in
    let read = read_until-block line rest no_end in
    let parsed = parse_block-header base64 (line ++ newline ∷ []) bytes back in
    ap (λ ls. read_data base64 (stream_of ls)) stream
    ∙ ap (λ r. (parse_block base64 r.0, stream_of r.1)) read
    ∙ ap (λ b. (b, stream_of rest)) parsed
