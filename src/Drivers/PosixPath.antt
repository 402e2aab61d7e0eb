-- ===== src/Drivers/PosixPath.antt =====
-- The functions of `os.path` that the driver calls. No symbolic links: `realpath` removes `.`, `..`
-- and repeated slashes, relative to the working directory `cwd`.
pub mod Laws
pub mod Names
pub mod Dirname
use mathlib.Core.List.{reverse}
use ai_storybook_storage_ser.Base.{
  ℕ, Text, codes, Bool, true, ◌||◌, List, [], ◌∷◌, ◌++◌, last_or, text_eq, starts_with, split, join,
  rstrip_char, Option, none, some, if◌then◌else◌, ◌==◌,
}

-- A place in the directory tree: the names on the way down from the root.
abbrev pub FilePath : Type 0
FilePath = List Text

-- `os.path.join(a, b)`
unfoldable pub path_join : Text → Text → Text
path_join a b =
    if starts_with b (codes "/")
    then b
    else if text_eq a [] || (last_or 0 a == b'/')
    then a ++ b
    else a ++ b'/' ∷ b

-- One component of a path; the stack has its top at the head.
unfoldable pub enter : List Text → Text → List Text
enter [] name =
    if text_eq name [] || text_eq name (codes ".") || text_eq name (codes "..")
    then []
    else name ∷ []
enter (top ∷ stack) name =
    if text_eq name [] || text_eq name (codes ".")
    then top ∷ stack
    else if text_eq name (codes "..")
    then stack
    else name ∷ top ∷ stack

unfoldable pub walk : List Text → List Text → List Text
unfolding enter
walk stack [] = stack
walk stack (name ∷ names) = walk (enter stack name) names

-- `os.path.abspath` before it is normalised
unfoldable pub absolute : Text → Text → Text
absolute cwd path = if starts_with path (codes "/") then path else path_join cwd path

-- The place that a path names.
unfoldable pub stack_of : Text → Text → List Text
stack_of cwd path = walk [] (split b'/' (absolute cwd path))

unfoldable pub resolve : Text → Text → FilePath
unfolding stack_of
resolve cwd path = reverse (stack_of cwd path)

-- `os.path.realpath(path)`
unfoldable pub realpath : Text → Text → Text
realpath cwd path = b'/' ∷ join b'/' (resolve cwd path)

-- The text before the last slash.
unfoldable pub before_last_slash : Text → Option Text
before_last_slash [] = none
before_last_slash (c ∷ s) = elim (before_last_slash s) [
  | some t ↦ some (c ∷ t)
  | none ↦ if c == b'/' then some [] else none
]

-- `os.path.dirname(path)`: slashes at the end of the result go, unless there is nothing else.
unfoldable pub dirname : Text → Text
dirname path = elim (before_last_slash path) [
  | none ↦ []
  | some top ↦
      let stripped = rstrip_char b'/' top in if text_eq stripped [] then b'/' ∷ top else stripped
]
