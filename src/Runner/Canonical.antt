-- ===== src/Runner/Canonical.antt =====
-- When the publish check of tools/runner.go passes, and all that it then does.
use grpc_tunnel.Prelude.{true, some, List, [], ◌∷◌, ◌≡◌}
use grpc_tunnel.Prelude.Text.{Text, lit, trim_space, join_path}
use grpc_tunnel.Runner.{Host, Effect, ran, file_stored, temp_made, temp_removed}
use grpc_tunnel.Runner.Repository.{parse_go_mod_module_path}
use grpc_tunnel.Runner.Spellings.{IsSpelling}
use grpc_tunnel.Runner.Expected.{
  expected_origin, expected_reach, expected_init, expected_get, expected_build, expected_main,
}

-- Everything that the check asks for, with `dir` as its temporary directory.
pub record IsPublished (h : Host) (root dir : Text) : Type 0 where
  pub content : Text
  pub read : h.reads (join_path root (lit "go.mod")) ≡ some content
  pub module_path :
      parse_go_mod_module_path content ≡ some (lit "github.com/monstercameron/grpc-tunnel")
  pub origin_known : (h.runs (expected_origin h root)).1 ≡ true
  pub origin : IsSpelling (trim_space (trim_space (h.runs (expected_origin h root)).0))
  pub reached : (h.runs (expected_reach h root)).1 ≡ true
  pub made : h.temp_dir ≡ some dir
  pub initialised : (h.runs (expected_init h root dir)).1 ≡ true
  pub got : (h.runs (expected_get h root dir)).1 ≡ true
  pub stored : h.writes (join_path dir (lit "main.go")) ≡ true
  pub built : (h.runs (expected_build h root dir)).1 ≡ true

-- All that a check that passes does, in order.
abbrev pub published_effects : Host → Text → Text → List Effect
published_effects h root dir =
    ran (expected_origin h root)
    ∷ ran (expected_reach h root)
    ∷ temp_made dir
    ∷ ran (expected_init h root dir)
    ∷ ran (expected_get h root dir)
    ∷ file_stored (join_path dir (lit "main.go")) expected_main
    ∷ ran (expected_build h root dir)
    ∷ temp_removed dir
    ∷ []
