-- ===== src/Files/Match.antt =====
-- translate, rel, match, excluded, matchAny, opSet and opName of file.go.
use kickd.Prelude.{
  ◌&&◌, ◌||◌, not, Bool, true, false, String, Option, none, some, List, [], ◌∷◌, ◌++◌,
  if◌then◌else◌, string_eq, ◌==◌, any, contains,
}
use kickd.Prelude.Ascii.{has_prefix, trim_prefix, any_char, is_char}
use kickd.Event.{FileChange}
use kickd.Config.Model.{default_file_ops}

-- Of the packages path and path/filepath: Match, where a broken pattern matches nothing, the parts of a
-- path between its slashes, the last of them, and the path of a file relative to the root, where it has
-- one, with slashes.
pub record Paths : Type 0 where
  pub matches : String → String → Bool
  pub parts : String → List String
  pub base : String → String
  pub relative : String → Option String

abbrev pub or_outside : Option String → String
or_outside none = ""
or_outside (some r) = if r == "." || r == ".." || has_prefix r "../" then "" else r

-- rel: nothing for the root itself and for what lies outside it.
abbrev pub rel : Paths → String → String
rel ps p = or_outside (ps.relative p)

abbrev pub has_slash : String → Bool
has_slash p = any_char (is_char b'/') p

abbrev pub matches_one : Paths → String → Bool → String → Bool
matches_one ps r components p =
    if has_slash p
    then ps.matches (trim_prefix p "/") r
    else if components
    then any (ps.matches p) (ps.parts r)
    else ps.matches p (ps.base r)

-- matchAny
abbrev pub match_any : Paths → List String → String → Bool → Bool
match_any ps patterns r components = any (matches_one ps r components) patterns

pub record Patterns : Type 0 where
  pub recursive : Bool
  pub include : List String
  pub exclude : List String
  pub ops : List String

abbrev pub excluded : Paths → Patterns → String → Bool
excluded ps w r = match_any ps w.exclude r true

abbrev pub is_nil : List String → Bool
is_nil xs = elim xs [ [] ↦ true | _ ↦ false ]

-- match
unfoldable pub is_match : Paths → Patterns → String → Bool
is_match ps w r =
    not (r == "") && not (excluded ps w r) && (is_nil w.include || match_any ps w.include r false)

abbrev pub op_set : Patterns → List String
op_set w = if is_nil w.ops then default_file_ops else w.ops

-- What fsnotify reports: the operations that an event of a path has.
pub record Notice : Type 0 where
  pub path : String
  pub has_create : Bool
  pub has_remove : Bool
  pub has_rename : Bool
  pub has_write : Bool
  pub has_chmod : Bool

-- opName: the first operation that the event has.
unfoldable pub op_name : Notice → String
op_name n =
    if n.has_create
    then "create"
    else if n.has_remove
    then "remove"
    else if n.has_rename
    then "rename"
    else if n.has_write
    then "write"
    else if n.has_chmod
    then "chmod"
    else "unknown"

abbrev pub change_if : Bool → String → String → List FileChange
change_if b path op = if b then record { path = path; op = op } ∷ [] else []

-- The files of a new directory that are reported, since they may have been written before it was
-- watched.
unfoldable pub found_files : Paths → Patterns → List String → List FileChange
found_files ps w [] = []
found_files ps w (p ∷ rest) =
    change_if (contains (op_set w) "create" && is_match ps w (rel ps p)) p "create"
    ++ found_files ps w rest

-- translate. `found` are the files that addTree finds in the path, where it is a directory.
unfoldable pub translate : Paths → Patterns → Notice → List String → List FileChange
translate ps w n found =
    let r = rel ps n.path in
    if r == ""
    then []
    else change_if (contains (op_set w) (op_name n) && is_match ps w r) n.path (op_name n)
      ++ (if w.recursive && n.has_create && not (excluded ps w r)
          then found_files ps w found
          else [])
