-- ===== src/Io/Chunks.antt =====
-- lib/IO.py: get_file_chunk.
use tsi.Base.{
  ℕ, zero, suc, ◌+◌, ◌-◌, Option, none, some, [], ◌∷◌, ◌++◌, Bool, true, false, ◌==◌, nat_eq,
  text_eq, take, drop, length, if◌then◌else◌,
}
use Prim.Native.Nat.{min}
use tsi.Base.Int.{ℤ, pos, negsuc}
use tsi.Base.Dict.{lookup}
use tsi.Base.Exec.{Result, ok, err, ◌>>=?◌, value_error, os_error}
use tsi.Base.Text.{Text, txt, newline}
use tsi.Base.Format.{show_nat}
use tsi.Connector.{reply_ok}
use tsi.Connector.Data.{Bytes, write_out}
use tsi.Utils.{Environment, expand_variables, extract_parameter}
use tsi.Io.{Session, Device, text_of, int_of}

-- The session after a run, or `none` for a loop that still runs when the fuel is spent.
abbrev pub Outcome : Type 0
Outcome = Option (Result (Unit {0}) × Session)

-- What get_file_chunk reads from its message.
pub record GetRequest : Type 0 where
  pub path : Text
  pub start : ℤ
  pub length : ℤ

unfoldable pub get_request : Environment → Text → Result GetRequest
unfolding text_of int_of
get_request env msg = text_of (extract_parameter msg (txt "FILE") none) >>=? λ file.
    int_of (extract_parameter msg (txt "START") none) >>=? λ start.
    int_of (extract_parameter msg (txt "LENGTH") none) >>=? λ len.
    ok (record { path = expand_variables env file; start = start; length = len })

abbrev pub zeros : ℕ → Bytes
zeros zero = []
zeros (suc n) = 0 ∷ zeros n

-- `f.readinto(buf)` fills the buffer from its first byte on, in every round.
unfoldable pub read_file :
    (ℕ → ℕ) → ℕ → Bytes → Bytes → ℕ → (remaining : ℕ) → (fuel : ℕ) → Option (Bytes × ℕ)
read_file amount k buf rest total zero fuel = some (buf, total)
read_file amount k buf rest total (suc r) zero = none
read_file amount k buf rest total (suc r) (suc fuel) =
    let read = min (amount k) (min (length buf) (length rest)) in
    elim (read == 0) [
      | true ↦ some (buf, total)
      | false ↦
          read_file amount (suc k) (take read rest ++ drop read buf) (drop read rest) (total + read)
            (suc r - read) fuel
    ]

abbrev pub length_reply : ℕ → Text
length_reply total = txt "TSI_LENGTH " ++ (show_nat total ++ (newline ∷ txt "ENDOFMESSAGE"))

-- The reply, and the loop that writes the data.
unfoldable pub send : Device → Option (Bytes × ℕ) → Session → Outcome
unfolding write_out
send device none s = none
send device (some (buf, total)) s =
    elim (write_out device.send_amount buf total 0 0 s.data_out total total) [
      | none ↦ none
      | some (k, out) ↦ some (
        ok tt,
        record s { connector = reply_ok (some (length_reply total)) s.connector; data_out = out },
      )
    ]

-- From the position on; a negative one is refused, as is a buffer of negative length.
unfoldable pub get_from : Device → Bytes → ℤ → Session → Outcome
unfolding read_file send
get_from device rest (negsuc n) s = some (err value_error, s)
get_from device rest (pos n) s = send device (read_file device.read_amount 0 (zeros n) rest 0 n n) s

unfoldable pub seek : Bool → ℤ → Bytes → Option Bytes
seek false start content = some content
seek true (pos n) content = some (drop n content)
seek true (negsuc n) content = none

unfoldable pub get_open : Device → GetRequest → Option Bytes → Session → Outcome
unfolding get_from seek
get_open device q none s = some (err os_error, s)
get_open device q (some content) s = elim (seek (device.seekable q.path) q.start content) [
  | none ↦ some (err os_error, s)
  | some rest ↦ get_from device rest q.length s
]

unfoldable pub get_file : Device → Result GetRequest → Session → Outcome
unfolding get_open
get_file device (err e) s = some (err e, s)
get_file device (ok q) s =
    get_open device q (if device.may_open q.path then lookup q.path s.files else none) s

unfoldable pub get_file_chunk : Device → Text → Session → Outcome
unfolding get_file get_request
get_file_chunk device msg s = get_file device (get_request device.environment msg) s
