-- ===== src/Io/Stored.antt =====
-- What lib/IO.py's put_file_chunk leaves in the file and in the data channel.
use tsi.Base.{
  ◌≡◌, refl, ℕ, zero, suc, ◌-◌, ◌<◌, inl, inr, Option, none, some, Bool, false, ◌++◌, true, arith,
  take, drop, length, length-take, length-drop, Option-cases, text_eq,
}
use Prim.Native.Nat.{min}
use tsi.Base.Int.{pos}
use tsi.Base.Dict.{lookup}
use tsi.Base.Exec.{ok}
use tsi.Base.Text.{Text}
use tsi.Connector.Data.{Bytes, buf_size, read_data, write_out}
use tsi.Io.{Session, Device}
use tsi.Io.Putting.{
  PutRequest, put_request, put_file, put_file_chunk, store, stored, opened_content, positive_part,
}

-- A channel that ends too early.
store-starved :
    (amount : ℕ → ℕ) (k : ℕ) (input sink : Bytes) (remaining fuel : ℕ)
    → length input < remaining
    → store amount k input sink remaining fuel ≡ none
unfolding store read_data
store-starved amount k input sink zero fuel short = absurd (omega (arith, short))
store-starved amount k input sink (suc r) zero short = refl
store-starved amount k input sink (suc r) (suc fuel) short =
    let l = min (suc r) buf_size in
    let buf = take l input in
    elim (Option-cases (write_out amount buf (length buf) k 0 sink (length buf) (length buf))) [
      | inl e ↦ rw (e, store) refl
      | inr ((k', sink'), e) ↦
          rw (e, store)
            (store-starved amount k' (drop l input) sink' (suc r - length buf) fuel
              (omega (arith, short, length-drop l input, length-take l input)))
    ]

-- The abstract view of a file that is written: new bytes follow the old ones, or replace them.
abbrev pub written_content : Bool → Option Bytes → Bytes → Bytes
written_content true (some old) new = old ++ new
written_content true none new = new
written_content false old new = new

-- A client that closes the data channel before the announced number of bytes keeps put_file_chunk in its
-- loop: it has not returned after any number of rounds.
pub put_file_chunk-starved :
    (device : Device) (msg : Text) (s : Session) (q : PutRequest) (n fuel : ℕ)
    → put_request device.environment msg ≡ ok q
    → device.may_open q.path ≡ true
    → q.length ≡ pos n
    → length s.data_in < n
    → put_file_chunk device fuel msg s ≡ none
unfolding put_file_chunk put_file stored positive_part
put_file_chunk-starved device msg s q n fuel asked opens len short =
    let old = opened_content q.appends (lookup q.path s.files) in
    let starved = store-starved device.write_amount 0 s.data_in old n fuel short in
    rw (asked, opens, len, starved) refl
