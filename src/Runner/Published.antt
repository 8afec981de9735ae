-- ===== src/Runner/Published.antt =====
-- What the publish check of tools/runner.go does when it passes, in the code's own terms.
use grpc_tunnel.Prelude.{
  Bool, true, false, Option, none, some, List, [], ◌∷◌, ◌++◌, ◌≡◌, refl, sym, subst, inl, inr,
  if◌then◌else◌, Bool-cases, arith,
}
use grpc_tunnel.Prelude.Text.{Text, lit, text_eq_iff, trim_space, join_path}
use grpc_tunnel.Runner.{
  Process, Host, Effect, RunnerError, Task, Ending, finished, failed, continue, unless_true, ran,
  file_stored, temp_made, temp_removed, ◌>>◌, handle_process, output_of, store_file,
}
use grpc_tunnel.Runner.Repository.{parse_go_mod_module_path, normalize_repository_url}
use grpc_tunnel.Runner.Publish.{
  canonical_module_path, canonical_repository_url, of_option, process_or, origin_process,
  reach_process, consumer_process, init_args, get_args, build_args, smoke_test, smoke_main,
  in_temp_dir, check_identity, handle_canonical_publish_check,
}

pub continue-finished {ℓ κ} :
    {A : Type ℓ} {B : Type κ} (es : List Effect) (r : Ending A) (next : A → Task B) (b : B)
    → (continue es r next).1 ≡ finished b
    → (a : A) × (r ≡ finished a) × ((next a).1 ≡ finished b)
continue-finished es (failed e) next b h = absurd (ground arith)
continue-finished es (finished a) next b h = (a, refl, h)

pub if-finished :
    (b : Bool) (e : RunnerError) (u : Unit {0})
    → (if b then finished tt else failed e) ≡ finished u
    → b ≡ true
if-finished true e u h = refl
if-finished false e u h = absurd (ground arith)

pub option-finished {ℓ} :
    {A : Type ℓ} (o : Option A) (e : RunnerError) (a : A)
    → (of_option o e).1 ≡ finished a
    → o ≡ some a
option-finished none e a h = absurd (ground arith)
option-finished (some x) e a h = ground arith

pub unless-finished :
    (b : Bool) (e : RunnerError) (u : Unit {0}) → (unless_true b e).1 ≡ finished u → b ≡ true
unless-finished true e u h = refl
unless-finished false e u h = absurd (ground arith)

pub output-finished :
    (h : Host) (p : Process) (out : Text)
    → (output_of h p).1 ≡ finished out
    → ((h.runs p).1 ≡ true) × (out ≡ (h.runs p).0)
unfolding output_of
output-finished h p out e = elim (Bool-cases (h.runs p).1) [
  | inl good ↦ (good, ground arith)
  | inr bad ↦ absurd (ground arith)
]

pub store-finished :
    (h : Host) (path content : Text) (u : Unit {0})
    → (store_file h path content).1 ≡ finished u
    → h.writes path ≡ true
unfolding store_file
store-finished h path content u e = elim (Bool-cases (h.writes path)) [
  | inl good ↦ good
  | inr bad ↦ absurd (ground arith)
]

abbrev pub Identified : Host → Text → Type 0
Identified h root =
    (content : Text) × (h.reads (join_path root (lit "go.mod")) ≡ some content)
    × (parse_go_mod_module_path content ≡ some canonical_module_path)
    × ((h.runs (origin_process h root)).1 ≡ true)
    × (normalize_repository_url (trim_space (h.runs (origin_process h root)).0)
        ≡ normalize_repository_url canonical_repository_url)
    × ((h.runs (reach_process h root)).1 ≡ true)

check_identity-Identified :
    (h : Host) (root : Text) → (check_identity h root).1 ≡ finished tt → Identified h root
unfolding check_identity
check_identity-Identified h root e =
    let (content, a, e) = continue-finished _ _ _ _ e in
    let (module_path, b, e) = continue-finished _ _ _ _ e in
    let (u, c, e) = continue-finished _ _ _ _ e in
    let (output, d, e) = continue-finished _ _ _ _ e in
    let (v, f, e) = continue-finished _ _ _ _ e in
    let found = option-finished (parse_go_mod_module_path content) _ module_path b in
    let canonical : module_path ≡ canonical_module_path =
      (text_eq_iff _ _).0 (unless-finished _ _ u c) in
    let (known, same) = output-finished h (origin_process h root) output d in
    let origin : normalize_repository_url (trim_space output)
        ≡ normalize_repository_url canonical_repository_url =
      (text_eq_iff _ _).0 (unless-finished _ _ v f) in
    (
      content,
      option-finished (h.reads (join_path root (lit "go.mod"))) _ content a,
      rw canonical at found,
      known,
      rw same at origin,
      if-finished _ _ tt (unfold process_or in e),
    )

abbrev pub Smoked : Host → Text → Text → Type 0
Smoked h root dir =
    ((h.runs (consumer_process h root dir init_args)).1 ≡ true)
    × ((h.runs (consumer_process h root dir get_args)).1 ≡ true)
    × (h.writes (join_path dir (lit "main.go")) ≡ true)
    × ((h.runs (consumer_process h root dir build_args)).1 ≡ true)

smoke_test-Smoked :
    (h : Host) (root dir : Text) → (smoke_test h root dir).1 ≡ finished tt → Smoked h root dir
unfolding smoke_test
smoke_test-Smoked h root dir e =
    let (u, a, e) = continue-finished _ _ _ _ e in
    let (v, b, e) = continue-finished _ _ _ _ e in
    let (w, c, e) = continue-finished _ _ _ _ e in
    (
      if-finished _ _ u (unfold handle_process in a),
      if-finished _ _ v (unfold process_or in b),
      store-finished h _ _ w c,
      if-finished _ _ tt (unfold process_or in e),
    )

in_temp_dir-Smoked :
    (h : Host) (root : Text) (temp : Option Text)
    → (in_temp_dir h root temp).1 ≡ finished tt
    → (dir : Text) × (temp ≡ some dir) × Smoked h root dir
in_temp_dir-Smoked h root none e = absurd (ground arith)
in_temp_dir-Smoked h root (some dir) e = (dir, refl, smoke_test-Smoked h root dir e)

pub passed-Smoked :
    (h : Host) (root : Text)
    → (handle_canonical_publish_check h root).1 ≡ finished tt
    → Identified h root × ((dir : Text) × (h.temp_dir ≡ some dir) × Smoked h root dir)
unfolding handle_canonical_publish_check
passed-Smoked h root e =
    let (u, a, e) = continue-finished _ _ _ _ e in
    (check_identity-Identified h root a, in_temp_dir-Smoked h root h.temp_dir e)

finished-eq {ℓ} : {A : Type ℓ} (a b : A) → finished a ≡ finished b → a ≡ b
finished-eq a b h = ground arith

pub continue-finish {ℓ κ} :
    {A : Type ℓ} {B : Type κ} (es : List Effect) (r : Ending A) (next : A → Task B) (a : A) (b : B)
    → r ≡ finished a
    → (next a).1 ≡ finished b
    → (continue es r next).1 ≡ finished b
continue-finish es (failed e) next a b h k = absurd (ground arith)
continue-finish es (finished x) next a b h k =
    subst (λ y. (next y).1 ≡ finished b) (finished-eq a x (sym h)) k

two_tasks :
    (task : Task (Unit {0})) (es : List Effect) (next : Task (Unit {0})) (fs : List Effect)
    → task ≡ (es, finished tt)
    → next ≡ (fs, finished tt)
    → (task >> next) ≡ (es ++ fs, finished tt)
two_tasks task es next fs e f = rw (e, f) refl

Identified-task :
    (h : Host) (root : Text)
    → Identified h root
    → check_identity h root
      ≡ (ran (origin_process h root) ∷ ran (reach_process h root) ∷ [], finished tt)
unfolding check_identity process_or output_of
Identified-task h root (content, read, path, known, origin, reached) =
    rw (read, path, known, origin, reached) refl

-- What is done in the temporary directory when all goes well.
abbrev smoke_effects : Host → Text → Text → List Effect
smoke_effects h root dir =
    temp_made dir
    ∷ ran (consumer_process h root dir init_args)
    ∷ ran (consumer_process h root dir get_args)
    ∷ file_stored (join_path dir (lit "main.go")) smoke_main
    ∷ ran (consumer_process h root dir build_args)
    ∷ temp_removed dir
    ∷ []

handle_task :
    (h : Host) (p : Process) → (h.runs p).1 ≡ true → handle_process h p ≡ (ran p ∷ [], finished tt)
unfolding handle_process
handle_task h p good = rw good refl

process_task :
    (h : Host) (p : Process) (e : RunnerError)
    → (h.runs p).1 ≡ true
    → process_or h p e ≡ (ran p ∷ [], finished tt)
unfolding process_or
process_task h p e good = rw good refl

store_task :
    (h : Host) (path content : Text)
    → h.writes path ≡ true
    → store_file h path content ≡ (file_stored path content ∷ [], finished tt)
unfolding store_file
store_task h path content good = rw good refl

smoke_task :
    (h : Host) (root dir : Text)
    → Smoked h root dir
    → smoke_test h root dir ≡ (
      ran (consumer_process h root dir init_args)
          ∷ ran (consumer_process h root dir get_args)
          ∷ file_stored (join_path dir (lit "main.go")) smoke_main
          ∷ ran (consumer_process h root dir build_args)
          ∷ [],
      finished tt,
    )
unfolding smoke_test
smoke_task h root dir (initialised, got, stored, built) =
    two_tasks _ _ _ _ (handle_task h _ initialised) (
      two_tasks _ _ _ _ (process_task h _ _ got)
        (two_tasks _ _ _ _ (store_task h _ smoke_main stored) (process_task h _ _ built)))

Smoked-task :
    (h : Host) (root : Text) (temp : Option Text) (dir : Text)
    → temp ≡ some dir
    → Smoked h root dir
    → in_temp_dir h root temp ≡ (smoke_effects h root dir, finished tt)
Smoked-task h root temp dir made smoked = rw made (rw (smoke_task h root dir smoked) refl)

pub published_task :
    (h : Host) (root dir : Text)
    → Identified h root
    → h.temp_dir ≡ some dir
    → Smoked h root dir
    → handle_canonical_publish_check h root ≡ (
      ran (origin_process h root) ∷ ran (reach_process h root) ∷ smoke_effects h root dir,
      finished tt,
    )
unfolding handle_canonical_publish_check
published_task h root dir identified made smoked =
    two_tasks (check_identity h root) _ (in_temp_dir h root h.temp_dir) (smoke_effects h root dir)
      (Identified-task h root identified) (Smoked-task h root h.temp_dir dir made smoked)
