-- ===== src/Connector/Data.antt =====
-- lib/Connector.py: the data channel.
use tsi.Base.{ℕ, ◌+◌, ◌-◌, zero, suc, Option, none, some, List, ◌++◌, take, drop, length}
use Prim.Native.Nat.{min}

abbrev pub Bytes : Type 0
Bytes = List ℕ

abbrev pub buf_size : ℕ
buf_size = 32768

-- `data_in` is buffered, so a read comes back short only where the client has closed the channel.
unfoldable pub read_data : ℕ → Bytes → Bytes × Bytes
read_data maxlen data_in =
    let limit = min maxlen buf_size in (take limit data_in, drop limit data_in)

-- `buf[offset:total]`
abbrev pub slice : Bytes → ℕ → ℕ → Bytes
slice buf offset total = drop offset (take total buf)

-- The loop around partial writes: `amount n` bounds what write number `n` takes. The result is the
-- number of the next write and what was written; `none` says that the loop still runs after `fuel`
-- rounds.
unfoldable pub write_out : (ℕ → ℕ) → Bytes → ℕ → ℕ → ℕ → Bytes → ℕ → ℕ → Option (ℕ × Bytes)
write_out amount buf total k offset sink zero fuel = some (k, sink)
write_out amount buf total k offset sink (suc m) zero = none
write_out amount buf total k offset sink (suc m) (suc fuel) =
    let piece = slice buf offset total in
    let written = min (amount k) (length piece) in
    write_out amount buf total (suc k) (offset + written) (sink ++ take written piece)
      (suc m - written) fuel
