-- ===== src/Io/Tests.antt =====
-- Runs of lib/IO.py at concrete requests.
use tsi.Base.{
  ◌≡◌, refl, ℕ, ◌≤◌, ◌<◌, Option, none, some, List, [], ◌∷◌, ◌++◌, Bool, true, false, arith,
  text_eq, ◌==◌, if◌then◌else◌, ◌||◌, nat_eq, text_beq,
}
use tsi.Base.Int.{pos}
use tsi.Base.Dict.{lookup}
use tsi.Base.Exec.{ok}
use tsi.Base.Text.{Text, txt, parse_int}
use tsi.Connector.{Connector, reply_ok, write_message}
use tsi.Utils.{Environment, extract_parameter, expand_variables}
use tsi.Io.{Session, Device}
use tsi.Io.Chunks.{GetRequest, get_request, get_file_chunk, length_reply}
use tsi.Io.Putting.{PutRequest, put_request, put_file_chunk}
use tsi.Io.Stored.{put_file_chunk-starved}
use tsi.Io.Sent.{get_file_chunk-sent, get_file_chunk-overwritten}
use tsi.Io.Info.{Stat, perms}
use tsi.Io.Permissions.{read_letters, read_letters-perms}
use tsi.Io.Listing.{Files, ls, join_path}
use tsi.Io.DepthFirst.{Tree, leaf, file, directory, tree_written, ls-tree_written}
use tsi.Io.Space.{df}
use tsi.Io.Columns.{df-columns}

abbrev home_of_mary : Environment
home_of_mary = record { home = txt "/home/mary"; logname = txt "mary"; user = txt "mary" }

abbrev quiet_channel : Connector
quiet_channel = record { control_in = []; control_out = [] }

-- The system moves two bytes at a time.
abbrev slow : Device
slow = record {
  environment = home_of_mary;
  may_open = λ path. true;
  may_chmod = λ path mode. true;
  seekable = λ path. true;
  read_amount = λ n. 2;
  write_amount = λ n. 2;
  send_amount = λ n. 2;
}

abbrev put_message : Text
put_message = txt "#TSI_FILE $HOME/out 644\n#TSI_FILESACTION 3\n#TSI_LENGTH 3\n"

abbrev put_parsed : PutRequest
put_parsed = record {
  path = txt "/home/mary/out";
  mode = txt "644";
  appends = true;
  length = pos 3;
}

abbrev session_with : List ℕ → Session
session_with input = record {
  connector = quiet_channel;
  data_in = input;
  data_out = [];
  files = (txt "/home/mary/out", 1 ∷ 2 ∷ 3 ∷ []) ∷ [];
  chmods = [];
}

put_parsed_lem : put_request home_of_mary put_message ≡ ok put_parsed
unfolding put_request extract_parameter parse_int tsi.Utils.expand_variables tsi.Base.text_beq
put_parsed_lem = refl

put_file_chunk-starved_example :
    put_file_chunk slow 1000 put_message (session_with (7 ∷ 8 ∷ [])) ≡ none
put_file_chunk-starved_example =
    put_file_chunk-starved slow put_message (session_with (7 ∷ 8 ∷ [])) put_parsed 3 1000
      put_parsed_lem refl refl (omega arith)

abbrev get_message : Text
get_message = txt "#TSI_FILE $HOME/in\n#TSI_START 1\n#TSI_LENGTH 3\n"

abbrev get_parsed : GetRequest
get_parsed = record { path = txt "/home/mary/in"; start = pos 1; length = pos 3 }

get_parsed_lem : get_request home_of_mary get_message ≡ ok get_parsed
unfolding get_request extract_parameter parse_int tsi.Utils.expand_variables
get_parsed_lem = refl

-- The first read of the system hands out as much as this.
abbrev reading : ℕ → Device
reading first = record slow { read_amount = λ n. if n == 0 then first else 4096 }

abbrev session_of : List ℕ → Session
session_of content = record {
  connector = quiet_channel;
  data_in = [];
  data_out = [];
  files = (txt "/home/mary/in", content) ∷ [];
  chmods = [];
}

abbrev sent : ℕ → List ℕ → List ℕ → Session
sent n content bytes = record (session_of content) {
  connector = reply_ok (some (length_reply n)) quiet_channel;
  data_out = bytes;
}

get_file_chunk-sent_example :
    get_file_chunk (reading 4096) get_message (session_of (5 ∷ 6 ∷ 7 ∷ 8 ∷ 9 ∷ []))
    ≡ some (ok tt, sent 3 (5 ∷ 6 ∷ 7 ∷ 8 ∷ 9 ∷ []) (6 ∷ 7 ∷ 8 ∷ []))
unfolding lookup text_beq
get_file_chunk-sent_example =
    get_file_chunk-sent (reading 4096) get_message (session_of (5 ∷ 6 ∷ 7 ∷ 8 ∷ 9 ∷ [])) get_parsed
      (5 ∷ 6 ∷ 7 ∷ 8 ∷ 9 ∷ []) 1 3 (λ n. omega arith) get_parsed_lem refl refl refl refl refl
      (omega arith)

get_file_chunk-overwritten_example :
    (end : List ℕ) × (get_file_chunk (reading 2) get_message (session_of (5 ∷ 6 ∷ 7 ∷ 8 ∷ []))
      ≡ some (ok tt, sent 3 (5 ∷ 6 ∷ 7 ∷ 8 ∷ []) (8 ∷ end)))
unfolding lookup text_beq
get_file_chunk-overwritten_example =
    get_file_chunk-overwritten (reading 2) get_message (session_of (5 ∷ 6 ∷ 7 ∷ 8 ∷ [])) get_parsed
      (5 ∷ 6 ∷ 7 ∷ 8 ∷ []) 1 3 2 (λ n. omega arith) get_parsed_lem refl refl refl refl refl refl
      (omega arith) (omega arith) refl (omega arith)

read_letters-perms_example : read_letters (txt "rwxrwxrwx") 0 (txt "rw-r-----") ≡ 416
unfolding perms
read_letters-perms_example = read_letters-perms 33184

abbrev some_stat : Stat
some_stat = record {
  mode = 33184;
  directory = false;
  readable = true;
  writable = true;
  executable = false;
  owned = true;
  size = 12;
  modified = 7;
  user = some (txt "mary");
  group = some (txt "staff");
}

-- A directory `/d` with a file and a directory that holds one file.
abbrev small_files : Files
small_files = record {
  listdir = λ path.
      if path == txt "/d"
      then some (txt "a" ∷ txt "b" ∷ [])
      else if path == txt "/d/b"
      then some (txt "c" ∷ [])
      else none;
  isdir = λ path. (path == txt "/d") || (path == txt "/d/b");
  exists = λ path. true;
  stat = λ path. some some_stat;
}

abbrev small_tree : Tree
small_tree = file (txt "a") (directory (txt "b") (file (txt "c") leaf) leaf)

abbrev ls_message : Text
ls_message = txt "#TSI_FILE /d\n#TSI_LS_MODE R\n"

-- What the listing of `/d` has written.
abbrev listed : Connector
listed = write_message (txt "END_LISTING") (
    tree_written small_files (txt "/d") small_tree
      (reply_ok (some (txt "START_LISTING")) quiet_channel))

ls-tree_written_example :
    ls small_files home_of_mary 2 ls_message quiet_channel ≡ some (ok tt, listed)
unfolding extract_parameter text_beq expand_variables join_path
ls-tree_written_example =
    ls-tree_written small_files home_of_mary 2 ls_message (txt "/d") small_tree quiet_channel refl
      refl refl refl refl (refl, (refl, refl, (refl, tt), tt)) (omega arith)

df-columns_example :
    (df home_of_mary
      (λ cmd. (true, txt "Filesystem 1-blocks Used\n/dev/a 99 9  90 10% /\n"))
      (txt "#TSI_FILE /x\n")
      quiet_channel).1.control_out
    ≡ txt "TSI_OK\nSTART_DF\nTOTAL 99\nFREE 90\nUSER -1\nEND_DF\n"
unfolding extract_parameter tsi.Base.Lines.splitlines tsi.Base.Text.is_space tsi.Base.Text.is_digit
df-columns_example =
    df-columns home_of_mary (λ cmd. (true, txt "Filesystem 1-blocks Used\n/dev/a 99 9  90 10% /\n"))
      (txt "#TSI_FILE /x\n") (txt "/x") (txt "Filesystem 1-blocks Used\n/dev/a 99 9  90 10% /\n")
      quiet_channel (txt "Filesystem 1-blocks Used" ∷ []) [] (txt "/dev/a") (txt " ") (txt "99")
      (txt " ") (txt "9") (txt "  ") (txt "90") b' ' (txt "10% /") refl refl refl tt
      (refl, (refl, (refl, (refl, (refl, (refl, tt)))))) (refl, tt) (refl, (refl, tt)) (refl, tt)
      (refl, tt) (refl, (refl, tt)) (refl, (refl, tt)) refl
