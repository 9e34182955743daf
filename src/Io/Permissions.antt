-- ===== src/Io/Permissions.antt =====
-- The permissions in the lines of lib/IO.py's get_info can be read back, and take one line each.
use tsi.Base.{
  ◌≡◌, refl, ℕ, ◌+◌, ◌*◌, ◌/◌, ◌%◌, ◌⊎◌, inl, inr, [], ◌∷◌, true, false, arith, nat_eq, nat_beq,
  if◌then◌else◌, drop,
}
use tsi.Base.Text.{Text, txt}
use tsi.Io.Info.{flags_of, perms}

-- The standard reading of permission letters, as a binary number. Each place has a letter of its own: it is a bit
-- that is set, and `-` is one that is not; any other character, or a wrong number of them, is no reading, and gives
-- a number that no nine bits give.
abbrev pub letter_bit : ℕ → ℕ → ℕ
letter_bit expected c = if nat_beq c expected then 1 else if nat_beq c b'-' then 0 else 512

unfoldable pub read_letters : Text → ℕ → Text → ℕ
read_letters [] acc [] = acc
read_letters [] acc (c ∷ s) = 512
read_letters (e ∷ es) acc [] = 512
read_letters (e ∷ es) acc (c ∷ s) = read_letters es (acc * 2 + letter_bit e c) s

bit-value :
    (char x : ℕ)
    → nat_beq char char ≡ true
    → nat_beq b'-' char ≡ false
    → x ≡ 0 ⊎ x ≡ 1
    → letter_bit char (if nat_beq x 1 then char else b'-') ≡ x
bit-value char x same h (inl e) = rw (e, h) refl
bit-value char x same h (inr e) = rw (e, same) refl

two : (n : ℕ) → ((n % 2) ≡ 0) ⊎ ((n % 2) ≡ 1)
two n = omega arith

-- The permission letters that a listing shows of a mode, each in its place of `rwxrwxrwx`, are the lower nine bits of it, whatever the mode.
pub read_letters-perms :
    (mode : ℕ) → read_letters (txt "rwxrwxrwx") 0 (drop 2 (perms mode)) ≡ mode % 512
unfolding read_letters perms flags_of
read_letters-perms mode =
    let r1 = bit-value b'r' ((mode / 256) % 2) refl refl (two (mode / 256)) in
    let w1 = bit-value b'w' ((mode / 128) % 2) refl refl (two (mode / 128)) in
    let x1 = bit-value b'x' ((mode / 64) % 2) refl refl (two (mode / 64)) in
    let r2 = bit-value b'r' ((mode / 32) % 2) refl refl (two (mode / 32)) in
    let w2 = bit-value b'w' ((mode / 16) % 2) refl refl (two (mode / 16)) in
    let x2 = bit-value b'x' ((mode / 8) % 2) refl refl (two (mode / 8)) in
    let r3 = bit-value b'r' ((mode / 4) % 2) refl refl (two (mode / 4)) in
    let w3 = bit-value b'w' ((mode / 2) % 2) refl refl (two (mode / 2)) in
    let x3 = bit-value b'x' ((mode / 1) % 2) refl refl (two (mode / 1)) in
    rw (r1, w1, x1, r2, w2, x2, r3, w3, x3) (omega arith)
