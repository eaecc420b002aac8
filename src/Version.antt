-- ===== src/Version.antt =====
-- cam_reverse/version.py: the line that the commands log first. What git prints, decoded, is a parameter, as is the
-- version of Python.
use cam_reverse_py.Base.{
  ℕ, Bool, [], ◌∷◌, ◌++◌, ◌||◌, ◌&&◌, ◌==◌, leb, Text, Result, ok, err, if◌then◌else◌,
}
use cam_reverse_py.Settings.{codes}

abbrev pub version : Text
version = codes "0.1.0"

-- What `str.strip` takes away.
abbrev pub is_space : ℕ → Bool
is_space c =
    (leb 9 c && leb c 13)
    || (leb 28 c && leb c 32)
    || c == 133
    || c == 160
    || c == 5760
    || (leb 8192 c && leb c 8202)
    || c == 8232
    || c == 8233
    || c == 8239
    || c == 8287
    || c == 12288

abbrev pub lstrip : Text → Text
lstrip [] = []
lstrip (c ∷ cs) = if is_space c then lstrip cs else c ∷ cs

-- A character goes where nothing but spaces follow it.
abbrev pub before_spaces : ℕ → Text → Text
before_spaces c [] = if is_space c then [] else c ∷ []
before_spaces c (d ∷ ds) = c ∷ d ∷ ds

abbrev pub rstrip : Text → Text
rstrip [] = []
rstrip (c ∷ cs) = before_spaces c (rstrip cs)

abbrev pub or_unknown : Text → Text
or_unknown [] = codes "unknown"
or_unknown (c ∷ cs) = c ∷ cs

-- `git_revision`, for what the call of git and its decoding gave; any exception counts.
unfoldable pub git_revision : Result Text → Text
git_revision (err e) = codes "unknown"
git_revision (ok out) = or_unknown (rstrip (lstrip out))

-- `startup_line`.
unfoldable pub startup_line : Result Text → Text → Text
unfolding git_revision
startup_line out python =
    codes "cam-reverse (Python) v"
    ++ (version ++ (codes " [git " ++ (git_revision out ++ (codes "] on Python " ++ python))))
