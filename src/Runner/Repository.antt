-- ===== src/Runner/Repository.antt =====
-- Reading the module path of a go.mod and the normal form of a repository's URL.
use grpc_tunnel.Prelude.{
  ℕ, Bool, true, ◌&&◌, ◌||◌, Option, none, some, [], ◌∷◌, ◌++◌, ◌≡◌, refl, length, drop, ◌==◌,
  if◌then◌else◌,
}
use grpc_tunnel.Prelude.Text.{Text, lit, trim_space, trim_suffix, has_prefix}

-- The class \s of regular expressions.
unfoldable pub is_blank : ℕ → Bool
is_blank c = (c == b'\t') || (c == b'\n') || (c == 12) || (c == b'\r') || (c == b' ')

unfoldable pub skip_blanks : Text → Text
unfolding is_blank
skip_blanks [] = []
skip_blanks (c ∷ s) = let rest = skip_blanks s in if is_blank c then rest else c ∷ s

abbrev with_first : ℕ → Text × Text → Text × Text
with_first c (word, rest) = (c ∷ word, rest)

-- The longest word at the start, and what follows it.
unfoldable pub take_word : Text → Text × Text
unfolding is_blank
take_word [] = ([], [])
take_word (c ∷ s) =
    let rest = with_first c (take_word s) in if is_blank c then ([], c ∷ s) else rest

-- Nothing but blanks up to the end of the line.
unfoldable pub ends_line : Text → Bool
unfolding is_blank
ends_line [] = true
ends_line (c ∷ s) = let rest = ends_line s in if c == b'\n' then true else is_blank c && rest

abbrev module_word : Text × Text → Option Text
unfolding ends_line
module_word ([], rest) = none
module_word (c ∷ word, rest) = if ends_line rest then some (c ∷ word) else none

abbrev module_rest : Text → Option Text
unfolding ends_line take_word skip_blanks
module_rest [] = none
module_rest (c ∷ s) = if is_blank c then module_word (take_word (skip_blanks s)) else none

-- A match of ^module\s+(\S+)\s*$ at a line that begins here.
unfoldable pub match_module : Text → Option Text
unfolding has_prefix module_rest is_blank
match_module s = if has_prefix s (lit "module") then module_rest (drop 6 s) else none

abbrev or_later : Option Text → Option Text → Option Text
or_later none later = later
or_later (some path) later = some path

-- The first match; the flag is whether a line begins here.
unfoldable pub find_module : Bool → Text → Option Text
unfolding match_module
find_module starts [] = none
find_module starts (c ∷ s) =
    let later = find_module (c == b'\n') s in
    if starts then or_later (match_module (c ∷ s)) later else later

unfoldable pub parse_go_mod_module_path : Text → Option Text
unfolding find_module
parse_go_mod_module_path content = find_module true content

abbrev pub ssh_prefix : Text
ssh_prefix = lit "git@github.com:"

abbrev pub https_prefix : Text
https_prefix = lit "https://github.com/"

unfoldable pub normalize_repository_url : Text → Text
unfolding trim_space trim_suffix has_prefix
normalize_repository_url url =
    let url = trim_suffix (trim_space url) (lit ".git") in
    if has_prefix url ssh_prefix then https_prefix ++ drop (length ssh_prefix) url else url

module_test :
    parse_go_mod_module_path (lit "// a\nmodule  example.com/m \n\ngo 1.24\n")
    ≡ some (lit "example.com/m")
unfolding parse_go_mod_module_path
module_test = refl

comment_test : parse_go_mod_module_path (lit "module m // m\n") ≡ none
unfolding parse_go_mod_module_path
comment_test = refl

url_test : normalize_repository_url (lit "git@github.com:a/b.git\n") ≡ lit "https://github.com/a/b"
unfolding normalize_repository_url
url_test = refl
