-- ===== src/Io/Info.antt =====
-- lib/IO.py, get_info: the line of a listing for one file.
use tsi.Base.{
  ℕ, ◌/◌, ◌%◌, Option, none, some, List, [], ◌∷◌, ◌++◌, Bool, ◌==◌, nat_eq, ◌||◌, if◌then◌else◌,
}
use tsi.Base.Exec.{Result, ok, err, key_error, os_error}
use tsi.Base.Text.{Text, txt, newline}
use tsi.Base.Format.{show_nat}

-- What `os.stat` and `os.access` say of a path, and the owners' entries; `none` is the `KeyError` of
-- `getpwuid` and `getgrgid`.
pub record Stat : Type 0 where
  pub mode : ℕ
  pub directory : Bool
  pub readable : Bool
  pub writable : Bool
  pub executable : Bool
  pub owned : Bool
  pub size : ℕ
  pub modified : ℕ
  pub user : Option Text
  pub group : Option Text

-- `mode & flag` for a flag of one bit
abbrev pub has_bit : ℕ → ℕ → Bool
has_bit mode flag = (mode / flag) % 2 == 1

abbrev pub mode_table : List (ℕ × ℕ)
mode_table =
    (256, b'r')
    ∷ (128, b'w')
    ∷ (64, b'x')
    ∷ (32, b'r')
    ∷ (16, b'w')
    ∷ (8, b'x')
    ∷ (4, b'r')
    ∷ (2, b'w')
    ∷ (1, b'x')
    ∷ []

unfoldable pub flags_of : ℕ → List (ℕ × ℕ) → Text
flags_of mode [] = []
flags_of mode ((flag, char) ∷ more) =
    (if has_bit mode flag then char else b'-') ∷ flags_of mode more

unfoldable pub perms : ℕ → Text
unfolding flags_of
perms mode = txt "--" ++ flags_of mode mode_table

-- `re.sub(r'[\r\n]', '?', path)`
unfoldable pub careful : Text → Text
careful [] = []
careful (c ∷ s) = (if (c == 13) || (c == newline) then b'?' else c) ∷ careful s

abbrev mark : Bool → ℕ → ℕ
mark b c = if b then c else b' '

unfoldable pub info_line : Stat → Text → Text → Text → Text
unfolding careful
info_line st path user group =
    b' '
    ∷ mark st.directory b'D'
    ∷ mark st.readable b'R'
    ∷ mark st.writable b'W'
    ∷ mark st.executable b'X'
    ∷ mark st.owned b'O'
    ∷ b' '
    ∷ (show_nat st.size
        ++ (b' '
            ∷ (show_nat st.modified
                ++ (b' '
                    ∷ (careful path
                        ++ (newline ∷ (perms st.mode ++ (b' ' ∷ (user ++ (b' ' ∷ group))))))))))

unfoldable pub owner_known : Stat → Text → Option Text → Option Text → Result Text
unfolding info_line
owner_known st path (some user) (some group) = ok (info_line st path user group)
owner_known st path _ _ = err key_error

unfoldable pub get_info : (Text → Option Stat) → Text → Result Text
unfolding owner_known
get_info stat path = elim (stat path) [
  | none ↦ err os_error
  | some st ↦ owner_known st path st.user st.group
]
