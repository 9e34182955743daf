-- ===== src/Io/Sent.antt =====
-- What lib/IO.py's get_file_chunk sends.
use tsi.Base.{
  ◌≡◌, refl, sym, ap, ◌∙◌, ℕ, zero, suc, ◌+◌, ◌-◌, ◌≤◌, ◌<◌, some, [], ◌∷◌, ◌++◌, true, arith, take,
  drop, length, length-take, length-drop, length-append, text_eq, nat_eq,
}
use Prim.Native.Nat.{min}
use tsi.Base.Int.{pos}
use tsi.Base.Dict.{lookup}
use tsi.Base.Exec.{ok}
use tsi.Base.Text.{Text}
use tsi.Connector.{reply_ok}
use tsi.Connector.Data.{Bytes}
use tsi.Io.{Session, Device}
use tsi.Io.Chunks.{
  GetRequest, get_request, get_file, get_open, get_from, get_file_chunk, read_file, send, seek,
  zeros, length_reply,
}
use tsi.Io.Written.{Advancing, drop-drop, take-all, write_out-whole}
use tsi.Io.Reading.{read-whole, read-twice}

take-front : (xs ys : Bytes) (n : ℕ) → length xs ≡ n → take n (xs ++ ys) ≡ xs
take-front [] ys n h = let e : n ≡ 0 = omega (arith, h) in ap (λ i. take i ys) e
take-front (x ∷ xs) ys zero h = absurd (omega (arith, h))
take-front (x ∷ xs) ys (suc n) h = ap (λ t. x ∷ t) (take-front xs ys n (omega (arith, h)))

take-short : (n : ℕ) (xs : Bytes) → take (min n (length xs)) xs ≡ take n xs
take-short zero xs = let e : min 0 (length xs) ≡ 0 = omega arith in ap (λ i. take i xs) e
take-short (suc n) [] = let i = min (suc n) 0 in take-all i [] (omega arith)
take-short (suc n) (x ∷ xs) =
    let e : min (suc n) (suc (length xs)) ≡ suc (min n (length xs)) = omega arith in
    ap (λ i. take i (x ∷ xs)) e ∙ ap (λ t. x ∷ t) (take-short n xs)

-- What is left of the buffer is written whole.
send-all :
    (device : Device) (buf : Bytes) (total : ℕ) (s : Session)
    → Advancing device.send_amount
    → total ≤ length buf
    → send device (some (buf, total)) s
      ≡ some (
        ok tt,
        record s {
          connector = reply_ok (some (length_reply total)) s.connector;
          data_out = s.data_out ++ take total buf;
        },
      )
unfolding send
send-all device buf total s moves fits =
    let (k, e) =
      write_out-whole device.send_amount buf total 0 0 s.data_out total total moves fits
        (omega arith) (omega arith) in
    rw (e, send) refl

-- A well-formed request for a file that may be opened and positioned.
got :
    (device : Device) (msg : Text) (s : Session) (q : GetRequest) (content : Bytes) (start n : ℕ)
    → get_request device.environment msg ≡ ok q
    → device.may_open q.path ≡ true
    → device.seekable q.path ≡ true
    → lookup q.path s.files ≡ some content
    → q.start ≡ pos start
    → q.length ≡ pos n
    → get_file_chunk device msg s
      ≡ send device (read_file device.read_amount 0 (zeros n) (drop start content) 0 n n) s
unfolding get_file_chunk get_file get_open get_from seek
got device msg s q content start n asked opens seeks found at len =
    rw (asked, opens, found, get_open, seeks, at, len) refl

-- A run of get_file_chunk whose request is well formed, whose file may be opened and positioned, and whose
-- first read hands out as much as the file has for it, returns. It reports the number of bytes between the
-- start and the end of the chunk or of the file, and sends exactly these, however the system splits the
-- writes; nothing else is changed.
pub get_file_chunk-sent :
    (device : Device) (msg : Text) (s : Session) (q : GetRequest) (content : Bytes) (start n : ℕ)
    → Advancing device.send_amount
    → get_request device.environment msg ≡ ok q
    → device.may_open q.path ≡ true
    → device.seekable q.path ≡ true
    → lookup q.path s.files ≡ some content
    → q.start ≡ pos start
    → q.length ≡ pos n
    → n ≤ device.read_amount 0
    → get_file_chunk device msg s
      ≡ some (
        ok tt,
        record s {
          connector = reply_ok (some (length_reply (min n (length content - start)))) s.connector;
          data_out = s.data_out ++ take n (drop start content);
        },
      )
get_file_chunk-sent device msg s q content start n moves asked opens seeks found at len first =
    let rest = drop start content in
    let m = min n (length content - start) in
    let count : min n (length rest) ≡ m = omega (arith, length-drop start content) in
    let front = take m rest in
    let exact : length front ≡ m = omega (arith, count, length-take m rest) in
    let whole = read-whole device.read_amount rest n m first count in
    let bytes : take m (front ++ drop m (zeros n)) ≡ take n rest =
      take-front front (drop m (zeros n)) m exact
      ∙ ap (λ i. take i rest) (sym count)
      ∙ take-short n rest in
    got device msg s q content start n asked opens seeks found at len
    ∙ ap (λ o. send device o s) whole
    ∙ (send-all device (front ++ drop m (zeros n)) m s moves
          (omega (arith, exact, length-append front (drop m (zeros n))))
        ∙ ap
            (λ d. some (
              ok tt,
              record s {
                connector = reply_ok (some (length_reply m)) s.connector;
                data_out = s.data_out ++ d;
              },
            ))
            bytes)

-- Where the first read hands out only `k` of the `n` bytes that follow the start, and the second one all
-- that are left, get_file_chunk still reports `n` bytes, but it sends the last `n - k` bytes of the file
-- first: the second read has written over the first.
pub get_file_chunk-overwritten :
    (device : Device) (msg : Text) (s : Session) (q : GetRequest) (content : Bytes) (start n k : ℕ)
    → Advancing device.send_amount
    → get_request device.environment msg ≡ ok q
    → device.may_open q.path ≡ true
    → device.seekable q.path ≡ true
    → lookup q.path s.files ≡ some content
    → q.start ≡ pos start
    → q.length ≡ pos n
    → length content - start ≡ n
    → 1 ≤ k
    → k < n
    → device.read_amount 0 ≡ k
    → n ≤ device.read_amount 1
    → (end : Bytes) × (get_file_chunk device msg s
        ≡ some (
          ok tt,
          record s {
            connector = reply_ok (some (length_reply n)) s.connector;
            data_out = s.data_out ++ (drop (start + k) content ++ end);
          },
        ))
get_file_chunk-overwritten device msg s q content start n k moves asked opens seeks found at len
      size some_read partial first second =
    let rest = drop start content in
    let count : length rest ≡ n = omega (arith, size, length-drop start content) in
    let (end, long, twice) =
      read-twice device.read_amount rest n k count some_read partial first second in
    (
      end,
      got device msg s q content start n asked opens seeks found at len
          ∙ ap (λ o. send device o s) twice
          ∙ send-all device (drop k rest ++ end) n s moves (omega (arith, long))
          ∙ ap
              (λ d. some (
                ok tt,
                record s {
                  connector = reply_ok (some (length_reply n)) s.connector;
                  data_out = s.data_out ++ d;
                },
              ))
              (take-all n (drop k rest ++ end) (omega (arith, long))
                ∙ ap (λ t. t ++ end) (drop-drop start k content)),
    )
