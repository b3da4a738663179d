-- ===== src/Watcher/Paths.antt =====
-- Paths of watched files: normalizeWatcherChange, hasHiddenPathSegment and normalizeEmbeddedFolders
-- of src/internal/watcher/embedded_worker.go, and normalizeWatcherPath of polling_source.go, on a
-- system with '/' as the separator. A clean path is kept as its segments. `cwd` is the working
-- directory, if the system tells it.
pub mod Segments
pub mod Inside
pub mod Folders
use mathlib.Core.List.{reverse}
use gocodemunch_mcp.Base.{
  ℕ, Text, codes, trim_space, is_empty, text_eq, has_prefix, split, join, Bool, true, false, not,
  ◌||◌, ◌&&◌, Option, none, some, List, [], ◌∷◌, ◌++◌, if◌then◌else◌, ◌==◌, Map, lookup, insert,
}
use gocodemunch_mcp.Watcher.{ChangeType, other, WatcherChange}

abbrev pub slash : ℕ
slash = b'/'

pub record CleanPath : Type 0 where
  pub rooted : Bool
  pub segments : List Text

-- filepath.IsAbs
abbrev pub is_abs : Text → Bool
is_abs [] = false
is_abs (c ∷ s) = c == slash

abbrev pub dots : Text
dots = b'.' ∷ b'.' ∷ []

-- ".." drops the segment in front of it, stays where there is none, and is nothing at the root. The
-- segments so far are newest first.
unfoldable pub up_segment : Bool → List Text → List Text
up_segment true [] = []
up_segment false [] = dots ∷ []
up_segment rooted (s ∷ stack) = if text_eq s dots then dots ∷ s ∷ stack else stack

unfoldable pub push_segment : Bool → List Text → Text → List Text
unfolding up_segment
push_segment rooted stack segment =
    if is_empty segment || text_eq segment (b'.' ∷ [])
    then stack
    else if text_eq segment dots
    then up_segment rooted stack
    else segment ∷ stack

unfoldable pub push_segments : Bool → List Text → List Text → List Text
unfolding push_segment
push_segments rooted stack [] = stack
push_segments rooted stack (s ∷ parts) = push_segments rooted (push_segment rooted stack s) parts

-- filepath.Clean
unfoldable pub clean : Text → CleanPath
unfolding push_segments
clean path = record {
  rooted = is_abs path;
  segments = reverse (push_segments (is_abs path) [] (split slash path));
}

unfoldable pub relative_text : List Text → Text
relative_text [] = b'.' ∷ []
relative_text (s ∷ ss) = join slash (s ∷ ss)

unfoldable pub path_text : CleanPath → Text
unfolding relative_text
path_text p = if p.rooted then slash ∷ join slash p.segments else relative_text p.segments

-- filepath.Join of a folder and a path that is not empty
unfoldable pub join_paths : Text → Text → Text
unfolding path_text
join_paths [] path = path_text (clean path)
join_paths (c ∷ folder) path = path_text (clean (c ∷ folder ++ (slash ∷ path)))

-- filepath.Abs
unfoldable pub absolute : Option Text → Text → Option CleanPath
absolute cwd path =
    if is_abs path
    then some (clean path)
    else elim cwd [ none ↦ none | some d ↦ some (clean (d ++ (slash ∷ path))) ]

unfoldable pub ups : List Text → List Text → List Text
ups [] rest = rest
ups (b ∷ base) rest = dots ∷ ups base rest

-- The segments of filepath.Rel, from where the two paths differ.
unfoldable pub climb : List Text → List Text → Option (List Text)
unfolding ups
climb [] target = some target
climb (b ∷ base) target = if text_eq b dots then none else some (ups (b ∷ base) target)

unfoldable pub relative_segments : List Text → List Text → Option (List Text)
unfolding climb
relative_segments [] target = some target
relative_segments (b ∷ base) [] = climb (b ∷ base) []
relative_segments (b ∷ base) (t ∷ target) =
    let same = relative_segments base target in
    if text_eq b t then same else climb (b ∷ base) (t ∷ target)

-- filepath.Rel of two clean paths, `none` where there is no way from one to the other.
unfoldable pub relative : CleanPath → CleanPath → Option Text
unfolding relative_segments relative_text
relative base target =
    if (base.rooted && target.rooted) || (not base.rooted && not target.rooted)
    then elim (relative_segments base.segments target.segments) [
      | none ↦ none
      | some segments ↦ some (relative_text segments)
    ]
    else none

unfoldable pub is_hidden_segment : Text → Bool
is_hidden_segment part =
    if is_empty (trim_space part) || text_eq (trim_space part) (b'.' ∷ [])
    then false
    else has_prefix (trim_space part) (b'.' ∷ [])

unfoldable pub any_hidden : List Text → Bool
any_hidden [] = false
any_hidden (part ∷ parts) =
    let rest = any_hidden parts in if is_hidden_segment part then true else rest

unfoldable pub has_hidden_path_segment : Text → Bool
unfolding any_hidden
has_hidden_path_segment path = any_hidden (split slash path)

unfoldable pub is_known : ChangeType → Bool
is_known (other t) = false
is_known t = true

-- A relative path is refused that is the folder itself, leads out of it or has a hidden segment.
unfoldable pub is_refused : Text → Bool
unfolding has_hidden_path_segment
is_refused path =
    if text_eq path (b'.' ∷ [])
    then true
    else if text_eq path dots || has_prefix path (b'.' ∷ b'.' ∷ slash ∷ [])
    then true
    else has_hidden_path_segment path

unfoldable pub accepted : WatcherChange → CleanPath → Option Text → Option WatcherChange
unfolding is_refused path_text
accepted change path none = none
accepted change path (some rel) =
    if is_refused rel
    then none
    else some (record {
      change_type = change.change_type;
      path = path_text path;
      old_hash = trim_space change.old_hash;
    })

unfoldable pub located : WatcherChange → CleanPath → Option CleanPath → Option WatcherChange
unfolding accepted relative
located change root none = none
located change root (some path) = accepted change path (relative root path)

unfoldable pub normalize_watcher_change : Option Text → Text → WatcherChange → Option WatcherChange
unfolding located absolute join_paths is_known
normalize_watcher_change cwd folder change =
    if not (is_known change.change_type)
    then none
    else if is_empty (trim_space change.path)
    then none
    else located change (clean folder) (
        absolute cwd (
          if is_abs (trim_space change.path)
          then trim_space change.path
          else join_paths folder (trim_space change.path)))
