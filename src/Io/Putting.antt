-- ===== src/Io/Putting.antt =====
-- lib/IO.py: put_file_chunk.
use tsi.Base.{
  ℕ, zero, suc, ◌+◌, ◌-◌, ◌*◌, Option, none, some, [], ◌∷◌, ◌++◌, Bool, true, false, ◌==◌, nat_eq,
  text_eq, length, leb, if◌then◌else◌, ◌&&◌, ◌||◌,
}
use tsi.Base.Int.{ℤ, pos, negsuc}
use tsi.Base.Dict.{lookup, insert}
use tsi.Base.Exec.{Result, ok, err, ◌>>=?◌, value_error, os_error}
use tsi.Base.Text.{Text, txt, strip}
use tsi.Connector.{reply_ok}
use tsi.Connector.Data.{Bytes, read_data, write_out}
use tsi.Utils.{Environment, expand_variables, extract_parameter}
use tsi.Io.{Session, Device, text_of, int_of}
use tsi.Io.Chunks.{Outcome}

-- What put_file_chunk reads from its message. `mode` is still a text.
pub record PutRequest : Type 0 where
  pub path : Text
  pub mode : Text
  pub appends : Bool
  pub length : ℤ

-- The two sides of the last `c`.
unfoldable pub cut_last : ℕ → Text → Option (Text × Text)
cut_last c [] = none
cut_last c (a ∷ s) = elim (cut_last c s) [
  | some (l, r) ↦ some (a ∷ l, r)
  | none ↦ elim (a == c) [ true ↦ some ([], s) | false ↦ none ]
]

unfoldable pub path_and_mode : Text → Result (Text × Text)
unfolding cut_last
path_and_mode s = elim (cut_last b' ' s) [ none ↦ err value_error | some r ↦ ok r ]

unfoldable pub action_of : Option Text → Text
action_of none = txt "1"
action_of (some a) = a

unfoldable pub put_request : Environment → Text → Result PutRequest
unfolding text_of int_of path_and_mode action_of
put_request env msg = text_of (extract_parameter msg (txt "FILE") none) >>=? λ file.
    path_and_mode file >>=? λ pm. int_of (extract_parameter msg (txt "LENGTH") none) >>=? λ len.
    ok (record {
      path = expand_variables env pm.0;
      mode = pm.1;
      appends = action_of (extract_parameter msg (txt "FILESACTION") none) == txt "3";
      length = len;
    })

-- The octal digits of `int(mode, 8)`, with one underscore between two of them.
unfoldable pub octal_digits : ℕ → Bool → Text → Option ℤ
octal_digits acc true [] = some (pos acc)
octal_digits acc false [] = none
octal_digits acc after_digit (c ∷ s) = elim (leb b'0' c && leb c b'7') [
  | true ↦ octal_digits (acc * 8 + (c - b'0')) true s
  | false ↦ elim (after_digit && (c == b'_')) [ true ↦ octal_digits acc false s | false ↦ none ]
]

abbrev negative : ℤ → ℤ
negative (pos zero) = pos zero
negative (pos (suc n)) = negsuc n
negative (negsuc n) = pos (suc n)

-- An underscore may stand behind the prefix `0o`.
unfoldable pub octal_prefixed : Text → Option ℤ
unfolding octal_digits
octal_prefixed [] = none
octal_prefixed (c ∷ s) = if c == b'_' then octal_digits 0 false s else octal_digits 0 false (c ∷ s)

unfoldable pub octal_unsigned : Text → Option ℤ
unfolding octal_digits octal_prefixed
octal_unsigned (zeroth ∷ o ∷ s) =
    if (zeroth == b'0') && ((o == b'o') || (o == b'O'))
    then octal_prefixed s
    else octal_digits 0 false (zeroth ∷ o ∷ s)
octal_unsigned s = octal_digits 0 false s

unfoldable pub octal_signed : Text → Option ℤ
unfolding octal_unsigned
octal_signed [] = none
octal_signed (c ∷ s) =
    if c == b'-'
    then elim (octal_unsigned s) [ none ↦ none | some n ↦ some (negative n) ]
    else if c == b'+'
    then octal_unsigned s
    else octal_unsigned (c ∷ s)

-- `int(s, 8)`
unfoldable pub parse_octal : Text → Option ℤ
unfolding octal_signed
parse_octal s = octal_signed (strip s)

-- One chunk after the other. An empty chunk changes nothing: the loop goes on.
unfoldable pub store :
    (ℕ → ℕ) → ℕ → Bytes → Bytes → (remaining : ℕ) → (fuel : ℕ) → Option (Bytes × Bytes)
unfolding read_data write_out
store amount k input sink zero fuel = some (input, sink)
store amount k input sink (suc r) zero = none
store amount k input sink (suc r) (suc fuel) =
    let (buf, rest) = read_data (suc r) input in
    elim (write_out amount buf (length buf) k 0 sink (length buf) (length buf)) [
      | none ↦ none
      | some (k', sink') ↦ store amount k' rest sink' (suc r - length buf) fuel
    ]

-- A mode that is no number raises; a failure of `chmod` is ignored.
unfoldable pub change_mode : Device → Text → Option ℤ → Session → Outcome
change_mode device path none s = some (err value_error, s)
change_mode device path (some mode) s = some (
  ok tt,
  record s {
    chmods = if device.may_chmod path mode then s.chmods ++ (path, mode) ∷ [] else s.chmods;
  },
)

-- Opening truncates, unless the file is appended to.
unfoldable pub opened_content : Bool → Option Bytes → Bytes
opened_content true (some content) = content
opened_content true none = []
opened_content false content = []

unfoldable pub positive_part : ℤ → ℕ
positive_part (pos n) = n
positive_part (negsuc n) = 0

unfoldable pub stored : Device → PutRequest → Option (Bytes × Bytes) → Session → Outcome
unfolding change_mode
stored device q none s = none
stored device q (some (input, sink)) s = change_mode device q.path (parse_octal q.mode) (record s {
  connector = reply_ok (some (txt "ENDOFMESSAGE")) s.connector;
  data_in = input;
  files = insert q.path sink s.files;
})

unfoldable pub put_file : Device → ℕ → Result PutRequest → Session → Outcome
unfolding stored store opened_content
put_file device fuel (err e) s = some (err e, s)
put_file device fuel (ok q) s =
    if device.may_open q.path
    then stored device q
        (store device.write_amount 0 s.data_in (opened_content q.appends (lookup q.path s.files))
          (positive_part q.length) fuel)
        s
    else some (err os_error, s)

-- The number bounds the rounds of the outer loop.
unfoldable pub put_file_chunk : Device → ℕ → Text → Session → Outcome
unfolding put_file put_request
put_file_chunk device fuel msg s = put_file device fuel (put_request device.environment msg) s
