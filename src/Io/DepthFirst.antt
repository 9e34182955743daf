-- ===== src/Io/DepthFirst.antt =====
-- The order in which lib/IO.py's list_directory writes a tree of files.
use tsi.Base.{
  contains, text_eq, text_beq, none, ◌≡◌, refl, ℕ, zero, suc, ◌≤◌, some, List, [], ◌∷◌, true, false,
  arith,
}
use Prim.Native.Nat.{max}
use tsi.Base.Exec.{ok}
use tsi.Base.Text.{Text, txt}
use tsi.Base.Format.{show_option}
use tsi.Utils.{Environment, extract_parameter, expand_variables}
use tsi.Connector.{reply_ok, Connector, write_message}
use tsi.Io.Info.{get_info}
use tsi.Io.Listing.{
  Files, after, join_path, write_info, descend, list_entries, list_directory, ls, ls_file, ls_mode,
  list_path, finish,
}

-- A directory as a tree: the names of its entries in the order of `listdir`, with what a directory holds.
pub data Tree : Type 0 where
  leaf : Tree
  file : Text → Tree → Tree
  directory : Text → Tree → Tree → Tree

abbrev pub names : Tree → List Text
names leaf = []
names (file n more) = n ∷ names more
names (directory n inside more) = n ∷ names more

-- How deep the directories are nested.
abbrev pub depth : Tree → ℕ
depth leaf = 1
depth (file n more) = depth more
depth (directory n inside more) = max (suc (depth inside)) (depth more)

depth-positive : (tree : Tree) → 1 ≤ depth tree
depth-positive leaf = omega arith
depth-positive (file n more) = depth-positive more
depth-positive (directory n inside more) = omega arith

module _ (fs : Files) where
  -- The files under a path are those of the tree.
  abbrev pub Entries : Text → Tree → Type 0
  Entries path leaf = Unit
  Entries path (file n more) = (fs.isdir (join_path path n) ≡ false) × Entries path more
  Entries path (directory n inside more) =
      (fs.isdir (join_path path n) ≡ true)
      × (fs.listdir (join_path path n) ≡ some (names inside))
      × Entries (join_path path n) inside
      × Entries path more

  -- The independent description: what stands in a directory, `<`, and then the directory itself.
  unfoldable pub tree_written : Text → Tree → Connector → Connector
  tree_written path leaf c = c
  tree_written path (file n more) c =
      tree_written path more (write_info (get_info fs.stat (join_path path n)) c)
  tree_written path (directory n inside more) c = tree_written path more (
      write_info (get_info fs.stat (join_path path n))
        (write_message (txt "<") (tree_written (join_path path n) inside c)))

  Entries-written :
      (d : ℕ) (path : Text) (tree : Tree) (c : Connector)
      → Entries path tree
      → depth tree ≤ suc d
      → list_entries fs true (list_directory fs true d) path (names tree) c
        ≡ some (ok tt, tree_written path tree c)
  unfolding list_entries descend after tree_written list_directory
  Entries-written d path leaf c holds enough = refl
  Entries-written d path (file n more) c (plain, holds) enough =
      rw (plain, list_entries)
        (Entries-written d path more (write_info (get_info fs.stat (join_path path n)) c) holds
          enough)
  Entries-written zero path (directory n inside more) c (is_dir, listed, held, holds) enough =
      absurd (omega (arith, enough, depth-positive inside))
  Entries-written (suc d) path (directory n inside more) c (is_dir, listed, held, holds) enough =
      let below = Entries-written d (join_path path n) inside c held (omega (arith, enough)) in
      let rest =
        Entries-written (suc d) path more
          (write_info (get_info fs.stat (join_path path n))
            (write_message (txt "<") (tree_written (join_path path n) inside c)))
          holds (omega (arith, enough)) in
      rw (is_dir, list_directory, listed, below) rest

  list_directory-tree_written :
      (bound : ℕ) (path : Text) (tree : Tree) (c : Connector)
      → fs.listdir path ≡ some (names tree)
      → Entries path tree
      → depth tree ≤ bound
      → list_directory fs true bound path c ≡ some (ok tt, tree_written path tree c)
  unfolding list_directory
  list_directory-tree_written zero path tree c listed holds enough =
      absurd (omega (arith, enough, depth-positive tree))
  list_directory-tree_written (suc d) path tree c listed holds enough =
      rw (listed, list_directory) (Entries-written d path tree c holds enough)

-- A request for the recursive listing of a directory that holds a tree of files is answered, with a bound of
-- the depth of the tree: between START_LISTING and END_LISTING stands for each directory first what is in it,
-- then `<`, and then its own line; a file whose line cannot be made is left out.
pub ls-tree_written :
    (fs : Files) (env : Environment) (bound : ℕ) (msg name : Text) (tree : Tree) (c : Connector)
    → extract_parameter msg (txt "FILE") none ≡ some name
    → extract_parameter msg (txt "LS_MODE") none ≡ some (txt "R")
    → fs.exists (expand_variables env name) ≡ true
    → fs.isdir (expand_variables env name) ≡ true
    → fs.listdir (expand_variables env name) ≡ some (names tree)
    → Entries fs (expand_variables env name) tree
    → depth tree ≤ bound
    → ls fs env bound msg c
      ≡ some (
        ok tt,
        write_message (txt "END_LISTING") (
            tree_written fs
              (expand_variables env name)
              tree
              (reply_ok (some (txt "START_LISTING")) c)),
      )
unfolding ls ls_file ls_mode list_path finish show_option contains text_beq
ls-tree_written fs env bound msg name tree c has_file has_mode exists is_dir listed holds enough =
    let path = expand_variables env name in
    let start = reply_ok (some (txt "START_LISTING")) c in
    rw
      (
        has_file,
        has_mode,
        exists,
        is_dir,
        list_directory-tree_written fs bound path tree start listed holds enough,
      )
      refl
