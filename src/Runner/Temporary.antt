-- ===== src/Runner/Temporary.antt =====
-- That the publish check removes its temporary directory however it ends.
use grpc_tunnel.Prelude.{
  Bool, true, false, Option, none, some, List, [], ◌∷◌, ◌++◌, ◌≡◌, refl, ◌⊎◌, inl, inr, Bool-cases,
}
use grpc_tunnel.Prelude.Text.{Text, lit, text_eq, trim_space, join_path}
use grpc_tunnel.Runner.{
  Process, Host, Effect, ran, file_stored, dir_made, removal, mode_set, temp_made, temp_removed,
  RunnerError, read_failed, no_module_path, wrong_module, wrong_origin, Task, Ending, finished,
  failed, continue, unless_true, handle_process, output_of, store_file,
}
use grpc_tunnel.Runner.Repository.{parse_go_mod_module_path, normalize_repository_url}
use grpc_tunnel.Runner.Publish.{
  canonical_module_path, canonical_repository_url, of_option, process_or, smoke_main, smoke_test,
  in_temp_dir, check_identity, handle_canonical_publish_check,
}

-- No effect of the list makes or removes a temporary directory.
abbrev pub no_temp : List Effect → Bool
no_temp [] = true
no_temp (temp_made dir ∷ es) = false
no_temp (temp_removed dir ∷ es) = false
no_temp (ran p ∷ es) = no_temp es
no_temp (file_stored path content ∷ es) = no_temp es
no_temp (dir_made path ∷ es) = no_temp es
no_temp (removal path ∷ es) = no_temp es
no_temp (mode_set path ∷ es) = no_temp es

no_temp-append :
    (es fs : List Effect) → no_temp es ≡ true → no_temp fs ≡ true → no_temp (es ++ fs) ≡ true
no_temp-append [] fs h k = k
no_temp-append (temp_made dir ∷ es) fs h k = cc
no_temp-append (temp_removed dir ∷ es) fs h k = cc
no_temp-append (ran p ∷ es) fs h k = no_temp-append es fs h k
no_temp-append (file_stored path content ∷ es) fs h k = no_temp-append es fs h k
no_temp-append (dir_made path ∷ es) fs h k = no_temp-append es fs h k
no_temp-append (removal path ∷ es) fs h k = no_temp-append es fs h k
no_temp-append (mode_set path ∷ es) fs h k = no_temp-append es fs h k

-- The same of a task, as a record so that the task can be inferred from it.
record Untemp {ℓ} {A : Type ℓ} (task : Task A) : Type 0 where
  shown : no_temp task.0 ≡ true

continue-Untemp {ℓ κ} :
    {A : Type ℓ} {B : Type κ} (es : List Effect) (r : Ending A) (next : A → Task B)
    → Untemp {A = A} (es, r)
    → ((a : A) → Untemp (next a))
    → Untemp (continue es r next)
continue-Untemp es (failed e) next h k = record { shown = h.shown }
continue-Untemp es (finished a) next h k = record {
  shown = no_temp-append es (next a).0 h.shown (k a).shown;
}

option-Untemp {ℓ} : {A : Type ℓ} (o : Option A) (e : RunnerError) → Untemp (of_option o e)
option-Untemp none e = record { shown = refl }
option-Untemp (some a) e = record { shown = refl }

unless-Untemp : (b : Bool) (e : RunnerError) → Untemp (unless_true b e)
unless-Untemp true e = record { shown = refl }
unless-Untemp false e = record { shown = refl }

ran-Untemp {ℓ} : {A : Type ℓ} (p : Process) (r : Ending A) → Untemp {A = A} (ran p ∷ [], r)
ran-Untemp p r = record { shown = refl }

store-Untemp : (h : Host) (path content : Text) → Untemp (store_file h path content)
unfolding store_file
store-Untemp h path content = elim (Bool-cases (h.writes path)) [
  | inl good ↦ rw good (record { shown = refl })
  | inr bad ↦ rw bad (record { shown = refl })
]

check_identity-Untemp : (h : Host) (root : Text) → Untemp (check_identity h root)
unfolding check_identity output_of process_or
check_identity-Untemp h root =
    let go_mod = join_path root (lit "go.mod") in
    let wanted = normalize_repository_url canonical_repository_url in
    continue-Untemp _ _ _ (option-Untemp (h.reads go_mod) (read_failed go_mod)) (λ content.
      continue-Untemp _ _ _ (option-Untemp (parse_go_mod_module_path content) no_module_path)
        (λ path.
          continue-Untemp _ _ _
            (unless-Untemp (text_eq path canonical_module_path) (wrong_module path))
            (λ u. continue-Untemp _ _ _ (ran-Untemp _ _) (λ output.
              let origin = normalize_repository_url (trim_space output) in
              continue-Untemp _ _ _ (unless-Untemp (text_eq origin wanted) (wrong_origin origin))
                (λ v. ran-Untemp _ _)))))

smoke_test-Untemp : (h : Host) (root dir : Text) → Untemp (smoke_test h root dir)
unfolding smoke_test handle_process process_or
smoke_test-Untemp h root dir = continue-Untemp _ _ _ (ran-Untemp _ _) (λ u.
    continue-Untemp _ _ _ (ran-Untemp _ _) (λ v.
      continue-Untemp _ _ _ (store-Untemp h (join_path dir (lit "main.go")) smoke_main)
        (λ w. ran-Untemp _ _)))

-- Before a temporary directory is made, while it is there, and that it is removed last.
abbrev pub RemovesTemp : List Effect → Type 0
RemovesTemp es =
    (no_temp es ≡ true)
    ⊎ ((before : List Effect) × (dir : Text) × (during : List Effect) × (es
          ≡ before ++ (temp_made dir ∷ (during ++ temp_removed dir ∷ [])))
        × (no_temp before ≡ true)
        × (no_temp during ≡ true))

removes_after :
    (h : Host) (root : Text) (es : List Effect) (r : Ending (Unit {0})) (temp : Option Text)
    → no_temp es ≡ true
    → RemovesTemp (continue es r (λ (u : Unit {0}). in_temp_dir h root temp)).0
removes_after h root es (failed e) temp n = inl n
removes_after h root es (finished u) none n = inl (no_temp-append es [] n refl)
removes_after h root es (finished u) (some dir) n =
    inr (es, dir, (smoke_test h root dir).0, refl, n, (smoke_test-Untemp h root dir).shown)

-- However the publish check ends, a temporary directory that it made is removed as its last effect, and
-- it makes one at most.
pub handle_canonical_publish_check-RemovesTemp :
    (h : Host) (root : Text) → RemovesTemp (handle_canonical_publish_check h root).0
unfolding handle_canonical_publish_check
handle_canonical_publish_check-RemovesTemp h root =
    removes_after h root (check_identity h root).0 (check_identity h root).1 h.temp_dir
      (check_identity-Untemp h root).shown
