-- ===== src/Runner/Coverage.antt =====
-- What the quality gates read in the output of processes: the coverage total, and whether a race run
-- failed for want of a toolchain.
use grpc_tunnel.Prelude.{
  ℕ, Bool, ◌&&◌, ◌||◌, Option, none, some, [], ◌∷◌, drop, leb, ◌==◌, if◌then◌else◌,
}
use grpc_tunnel.Prelude.Text.{Text, lit, contains, has_prefix}
use grpc_tunnel.TodoStore.Origin.{to_lower}
use grpc_tunnel.Runner.Repository.{is_blank, skip_blanks}

abbrev number_letter : ℕ → Bool
number_letter c = (leb b'0' c && leb c b'9') || (c == b'.')

abbrev with_digit : ℕ → Text × Text → Text × Text
with_digit c (digits, rest) = (c ∷ digits, rest)

unfoldable pub take_number : Text → Text × Text
take_number [] = ([], [])
take_number (c ∷ s) =
    let rest = with_digit c (take_number s) in if number_letter c then rest else ([], c ∷ s)

abbrev percent_after : Text × Text → Option Text
percent_after ([], rest) = none
percent_after (d ∷ digits, []) = none
percent_after (d ∷ digits, c ∷ rest) = if c == b'%' then some (d ∷ digits) else none

abbrev number_after : Text → Option Text
unfolding take_number skip_blanks
number_after [] = none
number_after (c ∷ s) = if is_blank c then percent_after (take_number (skip_blanks s)) else none

abbrev statements_after : Text → Option Text
unfolding number_after has_prefix skip_blanks
statements_after [] = none
statements_after (c ∷ s) =
    let rest = skip_blanks s in
    if is_blank c && has_prefix rest (lit "(statements)") then number_after (drop 12 rest) else none

-- A match of total:\s+\(statements\)\s+([0-9.]+)% here.
unfoldable pub match_total : Text → Option Text
unfolding statements_after has_prefix
match_total s = if has_prefix s (lit "total:") then statements_after (drop 6 s) else none

abbrev or_further : Option Text → Option Text → Option Text
or_further none further = further
or_further (some v) further = some v

unfoldable pub find_total : Text → Option Text
unfolding match_total
find_total [] = none
find_total (c ∷ s) = or_further (match_total (c ∷ s)) (find_total s)

-- Whether a race run failed for want of CGO or a C compiler.
unfoldable pub is_race_toolchain_issue : Text → Bool
unfolding to_lower contains
is_race_toolchain_issue output =
    let lower = to_lower output in
    contains lower (lit "requires cgo")
    || contains lower (lit "c compiler")
    || contains lower (lit "gcc")
    || contains lower (lit "clang")
