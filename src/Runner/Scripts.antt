-- ===== src/Runner/Scripts.antt =====
-- Commands as scripts: lists of steps that are taken one after the other until one fails.
use grpc_tunnel.Prelude.{
  Option, Option-cases, none, some, List, [], ◌∷◌, ◌++◌, ◌≡◌, refl, sym, append_assoc, append-nil,
  if◌then◌else◌, Bool-cases, inl, inr,
}
use grpc_tunnel.Prelude.Text.{Text}
use grpc_tunnel.Runner.{
  Process, Host, Removal, gone, absent, stuck, Effect, ran, removal, RunnerError, process_failed,
  no_binary, removal_failed, Task, Ending, finished, failed, ◌>>◌, handle_process, get_binary_error,
}
use grpc_tunnel.Runner.Commands.{removed, clear_file}

-- A binary must be there, a process runs, or a file is removed if it is there.
pub data Item : Type 0 where
  need : Text → Item
  run : Process → Item
  clear : Text → Item

-- What a step does, and the error that it ends in, if any.
abbrev pub removal_of : Text → Removal → List Effect
removal_of path gone = removal path ∷ []
removal_of path absent = []
removal_of path stuck = []

abbrev pub removal_error : Text → Removal → Option RunnerError
removal_error path gone = none
removal_error path absent = none
removal_error path stuck = some (removal_failed path)

abbrev pub effects_of : Host → Item → List Effect
effects_of h (need name) = []
effects_of h (run p) = ran p ∷ []
effects_of h (clear path) = removal_of path (h.removes path)

abbrev pub error_of : Host → Item → Option RunnerError
error_of h (need name) = if h.finds name then none else some (no_binary name)
error_of h (run p) = if (h.runs p).1 then none else some (process_failed p)
error_of h (clear path) = removal_error path (h.removes path)

-- The effects of the steps up to the first one that fails, and the end of the whole.
abbrev pub up_to : Option RunnerError → List Effect → List Effect
up_to none rest = rest
up_to (some e) rest = []

unfoldable pub script_effects : Host → List Item → List Effect
script_effects h [] = []
script_effects h (item ∷ items) =
    effects_of h item ++ up_to (error_of h item) (script_effects h items)

abbrev pub first_of : Option RunnerError → Option RunnerError → Option RunnerError
first_of none rest = rest
first_of (some e) rest = some e

unfoldable pub script_error : Host → List Item → Option RunnerError
script_error h [] = none
script_error h (item ∷ items) = first_of (error_of h item) (script_error h items)

abbrev pub ends_in : Option RunnerError → Ending (Unit {0})
ends_in none = finished tt
ends_in (some e) = failed e

-- A task that takes the steps of the script, and no more, until one fails.
abbrev pub Plays : Host → List Item → Task (Unit {0}) → Type 0
Plays h items task = (task.0 ≡ script_effects h items) × (task.1 ≡ ends_in (script_error h items))

pub need-Plays : (h : Host) (name : Text) → Plays h (need name ∷ []) (get_binary_error h name)
unfolding get_binary_error script_effects script_error
need-Plays h name = elim (Bool-cases (h.finds name)) [
  | inl found ↦ rw found (refl, refl)
  | inr lost ↦ rw lost (refl, refl)
]

pub run-Plays : (h : Host) (p : Process) → Plays h (run p ∷ []) (handle_process h p)
unfolding handle_process script_effects script_error
run-Plays h p = elim (Bool-cases (h.runs p).1) [
  | inl good ↦ rw good (refl, refl)
  | inr bad ↦ rw bad (refl, refl)
]

pub clear-Plays : (h : Host) (path : Text) → Plays h (clear path ∷ []) (clear_file h path)
unfolding clear_file script_effects script_error
clear-Plays h path =
    elim (h.removes path)
      as (λ r.
        ((removed path r).0 ≡ removal_of path r ++ up_to (removal_error path r) [])
        × ((removed path r).1 ≡ ends_in (first_of (removal_error path r) none))) [
          | gone ↦ (refl, refl)
          | absent ↦ (refl, refl)
          | stuck ↦ (refl, refl)
        ]

script_effects-append :
    (h : Host) (xs ys : List Item)
    → script_effects h (xs ++ ys)
      ≡ script_effects h xs ++ up_to (script_error h xs) (script_effects h ys)
unfolding script_effects script_error
script_effects-append h [] ys = refl
script_effects-append h (x ∷ xs) ys = elim (Option-cases (error_of h x)) [
  | inl fine ↦ rw (fine, script_effects-append h xs ys, append_assoc)
  | inr (e, bad) ↦ rw (bad, append_assoc)
]

script_error-append :
    (h : Host) (xs ys : List Item)
    → script_error h (xs ++ ys) ≡ first_of (script_error h xs) (script_error h ys)
unfolding script_error
script_error-append h [] ys = refl
script_error-append h (x ∷ xs) ys = elim (Option-cases (error_of h x)) [
  | inl fine ↦ rw (fine, script_error-append h xs ys)
  | inr (e, bad) ↦ rw bad
]

pub then-Plays :
    (h : Host) (xs ys : List Item) (task next : Task (Unit {0}))
    → Plays h xs task
    → Plays h ys next
    → Plays h (xs ++ ys) (task >> next)
then-Plays h xs ys (es, r) next (a, b) (c, d) = elim (Option-cases (script_error h xs)) [
  | inl fine ↦ rw (script_effects-append, script_error-append, b, fine, a, c, d) (refl, refl)
  | inr (e, bad) ↦
      rw (script_effects-append, script_error-append, b, bad, a) (sym (append-nil _), refl)
]
