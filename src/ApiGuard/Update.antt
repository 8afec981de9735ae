-- ===== src/ApiGuard/Update.antt =====
-- A baseline that the guard has just stored passes the guard's check.
use grpc_tunnel.Prelude.{
  true, false, Option, none, some, List, [], ◌∷◌, ◌++◌, ◌⊎◌, inl, inr, ◌≡◌, refl, sym, ap, arith,
}
use mathlib.Core.List.{Memᴰ}
use grpc_tunnel.Prelude.Text.{Text, lit, text_eq, join_path}
use grpc_tunnel.Prelude.Dict.{lookup, insert}
use grpc_tunnel.Prelude.Sorted.{has_text}
use grpc_tunnel.ApiGuard.{build_package_symbols}
use grpc_tunnel.ApiGuard.Baseline.{
  Packages, Outside, ApiError, symbols_at, store_package, or_map, build_package_symbol_map,
  package_paths, handle_documentation_check, handle_baseline_check, store_baseline_file,
  write_baseline, with_symbols, handle_api_guard_main, baseline_path,
}
use grpc_tunnel.ApiGuard.Judged.{IsMissing, handle_baseline_check-passes}

abbrev two_packages : List Text → List Text → Packages
two_packages a b = (lit "pkg/grpctunnel", a) ∷ (lit "pkg/bridge", b) ∷ []

symbols_two :
    (a b : Option (List Text)) (current : Packages)
    → or_map
        (store_package (lit "pkg/grpctunnel") a [])
        (λ packages. or_map (store_package (lit "pkg/bridge") b packages) inr)
      ≡ inr current
    → (x : List Text) × (y : List Text) × (current ≡ two_packages x y)
unfolding insert text_eq
symbols_two none b current h = absurd (ground arith)
symbols_two (some a) none current h = absurd (ground arith)
symbols_two (some a) (some b) current h = (a, b, ground arith)

build_map-two :
    (o : Outside) (root : Text) (current : Packages)
    → build_package_symbol_map o root package_paths [] ≡ inr current
    → (x : List Text) × (y : List Text) × (current ≡ two_packages x y)
unfolding build_package_symbol_map
build_map-two o root current h =
    symbols_two (build_package_symbols o.upper (o.read_dir (join_path root (lit "pkg/grpctunnel"))))
      (build_package_symbols o.upper (o.read_dir (join_path root (lit "pkg/bridge")))) current h

own_symbols :
    (a b : List Text) (path : Text) (symbols : List Text) (symbol : Text)
    → Memᴰ (path, symbols) (two_packages a b)
    → has_text symbols symbol ≡ true
    → has_text (symbols_at (two_packages a b) path) symbol ≡ false
    → ⊥
unfolding lookup text_eq
own_symbols a b path symbols symbol (Memᴰ.head e) stored gone =
    let here : path ≡ lit "pkg/grpctunnel" = ap (λ (x : Text × List Text). x.0) e in
    let same : symbols ≡ a = ap (λ (x : Text × List Text). x.1) e in
    let kept : has_text a symbol ≡ true = rw same at stored in
    let lost : has_text a symbol ≡ false = rw here at gone in cc
own_symbols a b path symbols symbol (Memᴰ.tail (Memᴰ.head e)) stored gone =
    let here : path ≡ lit "pkg/bridge" = ap (λ (x : Text × List Text). x.0) e in
    let same : symbols ≡ b = ap (λ (x : Text × List Text). x.1) e in
    let kept : has_text b symbol ≡ true = rw same at stored in
    let lost : has_text b symbol ≡ false = rw here at gone in cc
own_symbols a b path symbols symbol (Memᴰ.tail (Memᴰ.tail m)) stored gone = elim m [ ]

none-IsMissing : (a b : List Text) (m : Text) → ¬ IsMissing (two_packages a b) (two_packages a b) m
none-IsMissing a b m missing =
    own_symbols a b missing.path missing.symbols missing.symbol missing.listed missing.stored
      missing.gone

-- A check of the packages that the baseline lists passes.
check_own :
    (o : Outside) (path text : Text) (a b : List Text)
    → o.read_file path ≡ some text
    → o.unmarshal text ≡ some (two_packages a b)
    → handle_baseline_check o path (two_packages a b) ≡ inr none
check_own o path text a b read parsed =
    handle_baseline_check-passes o path text (two_packages a b) (two_packages a b) read parsed
      (none-IsMissing a b)

update_content :
    (o : Outside) (path : Text) (marshalled : Option Text) (p content : Text)
    → write_baseline o path marshalled ≡ inr (some (p, content))
    → (text : Text) × (marshalled ≡ some text) × (p ≡ path) × (content ≡ text ++ b'\n' ∷ [])
update_content o path none p content h = absurd (ground arith)
update_content o path (some text) p content h = (text, refl, ground arith, ground arith)

-- An update with the symbols at hand, and then a check with them.
update-check :
    (o o' : Outside) (root path content : Text) (found : ApiError ⊎ Packages)
    → found ≡ build_package_symbol_map o root package_paths []
    → with_symbols o root (lit "update") found ≡ inr (some (path, content))
    → o'.read_file path ≡ some content
    → ((packages : Packages) (text : Text)
        → o.marshal packages ≡ some text
        → o'.unmarshal (text ++ b'\n' ∷ []) ≡ some packages)
    → handle_documentation_check o' root ≡ none
    → with_symbols o' root (lit "check") found ≡ inr none
unfolding text_eq store_baseline_file
update-check o o' root path content (inl e) from h read undoes documented = absurd (ground arith)
update-check o o' root path content (inr current) from h read undoes documented =
    let (text, marshalled, same, whole) =
      update_content o (baseline_path root) (o.marshal current) path content h in
    let (a, b, two) = build_map-two o root current (sym from) in
    let parsed : o'.unmarshal content ≡ some current = rw whole (undoes current text marshalled) in
    rw (documented, two)
      (check_own o' (baseline_path root) content a b (rw same at read) (rw two at parsed))

same_map :
    (o o' : Outside) (root : Text)
    → o'.upper ≡ o.upper
    → o'.read_dir ≡ o.read_dir
    → build_package_symbol_map o' root package_paths []
      ≡ build_package_symbol_map o root package_paths []
unfolding build_package_symbol_map
same_map o o' root up dir = rw (up, dir)

-- After an update that stores the baseline, a check of the same packages passes where the stored file
-- is read and parsed as what was stored and the documents have their sections.
pub handle_api_guard_main-update :
    (o o' : Outside) (path content root : Text)
    → handle_api_guard_main o (lit "update" ∷ []) ≡ inr (some (path, content))
    → o.root ≡ some root
    → o'.root ≡ some root
    → o'.upper ≡ o.upper
    → o'.read_dir ≡ o.read_dir
    → o'.read_file path ≡ some content
    → ((packages : Packages) (text : Text)
        → o.marshal packages ≡ some text
        → o'.unmarshal (text ++ b'\n' ∷ []) ≡ some packages)
    → handle_documentation_check o' root ≡ none
    → handle_api_guard_main o' [] ≡ inr none
unfolding handle_api_guard_main
handle_api_guard_main-update o o' path content root h r r' up dir read undoes documented =
    rw (r', same_map o o' root up dir)
      (update-check o o' root path content (build_package_symbol_map o root package_paths []) refl
        (rw r at h) read undoes documented)
