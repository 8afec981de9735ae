-- ===== src/ApiGuard.antt =====
-- tools/api_compat_guard/main.go: the exported symbols of the two packages, the check against the
-- stored baseline and the update of it. Parsed files are go/ast's declarations; parsing, reading files
-- and JSON are given by a record, as are the upper-case letters above ASCII.
pub mod Symbols
pub mod Files
pub mod Baseline
pub mod Judged
pub mod Update
mod Tests
use grpc_tunnel.Prelude.{
  ℕ, Bool, true, false, ◌&&◌, ◌||◌, not, Option, none, some, List, [], ◌∷◌, ◌++◌, ◌⊎◌, inl, inr,
  leb, ltb, if◌then◌else◌,
}
use grpc_tunnel.Prelude.Text.{Text, lit, text_eq, trim_space, has_suffix, contains}
use grpc_tunnel.Prelude.Sorted.{has_text, sort_texts}
use grpc_tunnel.Prelude.Dict.{lookup, insert, or_zero}

-- The parts of `ast.Expr` that a receiver's type is told by.
pub data Expr : Type 0 where
  star_expr : Expr → Expr
  ident : Text → Expr
  index_expr : Expr → Expr
  index_list_expr : Expr → Expr
  selector_expr : Text → Expr
  other_expr : Expr

pub data Spec : Type 0 where
  type_spec : Text → Spec
  value_spec : List Text → Spec
  import_spec : Spec

pub data Tok : Type 0 where
  type_tok : Tok
  const_tok : Tok
  var_tok : Tok
  import_tok : Tok

-- `ast.Decl`. A function has its name and the types of its receiver list.
pub data Decl : Type 0 where
  gen_decl : Tok → List Spec → Decl
  func_decl : Text → List Expr → Decl
  bad_decl : Decl

-- ast.Ident's IsExported: the first rune is an upper-case letter.
unfoldable pub is_exported : (ℕ → Bool) → Text → Bool
is_exported upper [] = false
is_exported upper (c ∷ s) = if ltb c 0x80 then leb b'A' c && leb c b'Z' else upper c

-- `set[symbol] = struct{}{}`, with the keys of the set in the order in which they came.
unfoldable pub store_symbol : Text → List Text → List Text
unfolding has_text
store_symbol symbol set = if has_text set symbol then set else set ++ symbol ∷ []

abbrev pub store_name : (ℕ → Bool) → Text → Text → List Text → List Text
unfolding is_exported store_symbol
store_name upper kind name set =
    if is_exported upper name then store_symbol (kind ++ name) set else set

unfoldable pub store_names : (ℕ → Bool) → Text → List Text → List Text → List Text
unfolding store_name
store_names upper kind [] set = set
store_names upper kind (name ∷ names) set =
    store_names upper kind names (store_name upper kind name set)

abbrev pub store_spec : (ℕ → Bool) → Tok → Spec → List Text → List Text
unfolding store_name store_names
store_spec upper type_tok (type_spec name) set = store_name upper (lit "type ") name set
store_spec upper const_tok (value_spec names) set = store_names upper (lit "const ") names set
store_spec upper var_tok (value_spec names) set = store_names upper (lit "var ") names set
store_spec upper tok spec set = set

unfoldable pub store_gen_declaration_symbols : (ℕ → Bool) → Tok → List Spec → List Text → List Text
unfolding store_spec
store_gen_declaration_symbols upper tok [] set = set
store_gen_declaration_symbols upper tok (spec ∷ specs) set =
    store_gen_declaration_symbols upper tok specs (store_spec upper tok spec set)

unfoldable pub get_receiver_type_name : Expr → Text
get_receiver_type_name (star_expr x) = b'*' ∷ get_receiver_type_name x
get_receiver_type_name (ident name) = name
get_receiver_type_name (index_expr x) = get_receiver_type_name x
get_receiver_type_name (index_list_expr x) = get_receiver_type_name x
get_receiver_type_name (selector_expr name) = name
get_receiver_type_name other_expr = lit "unknown"

abbrev pub func_symbol : Text → List Expr → Text
unfolding get_receiver_type_name
func_symbol name [] = lit "func " ++ name
func_symbol name (receiver ∷ more) =
    lit "method (" ++ (get_receiver_type_name receiver ++ (lit ") " ++ name))

unfoldable pub store_func_declaration_symbol : (ℕ → Bool) → Text → List Expr → List Text → List Text
unfolding is_exported func_symbol store_symbol
store_func_declaration_symbol upper name receivers set =
    if is_exported upper name then store_symbol (func_symbol name receivers) set else set

abbrev pub store_declaration_symbols : (ℕ → Bool) → Decl → List Text → List Text
unfolding store_gen_declaration_symbols store_func_declaration_symbol
store_declaration_symbols upper (gen_decl tok specs) set =
    store_gen_declaration_symbols upper tok specs set
store_declaration_symbols upper (func_decl name receivers) set =
    store_func_declaration_symbol upper name receivers set
store_declaration_symbols upper bad_decl set = set

unfoldable pub store_declarations : (ℕ → Bool) → List Decl → List Text → List Text
unfolding store_declaration_symbols
store_declarations upper [] set = set
store_declarations upper (d ∷ ds) set =
    store_declarations upper ds (store_declaration_symbols upper d set)

-- A file of a directory, which is no directory itself: its name, and its declarations or `none` where it does not parse.
pub record SourceFile : Type 0 where
  pub name : Text
  pub declarations : Option (List Decl)

-- The guard's filter, after parser.ParseDir's own test of the name, which trims nothing.
unfoldable pub is_source_file : Text → Bool
unfolding trim_space has_suffix
is_source_file name =
    let trimmed = trim_space name in
    has_suffix name (lit ".go")
    && (if has_suffix trimmed (lit "_test.go") then false else has_suffix trimmed (lit ".go"))

abbrev pub both : Option (List Decl) → Option (List Decl) → Option (List Decl)
both none rest = none
both (some ds) none = none
both (some ds) (some rest) = some (ds ++ rest)

-- parser.ParseDir with the guard's filter, and the declarations of its files; `none` where a file that
-- the filter keeps does not parse.
unfoldable pub parse_dir : List SourceFile → Option (List Decl)
unfolding is_source_file both
parse_dir [] = some []
parse_dir (file ∷ files) =
    let rest = parse_dir files in
    if is_source_file file.name then both file.declarations rest else rest

abbrev pub symbols_of : (ℕ → Bool) → Option (List Decl) → Option (List Text)
unfolding store_declarations sort_texts
symbols_of upper none = none
symbols_of upper (some ds) = some (sort_texts (store_declarations upper ds []))

-- The symbols of a package directory, `none` where reading or parsing it fails.
unfoldable pub build_package_symbols : (ℕ → Bool) → Option (List SourceFile) → Option (List Text)
unfolding parse_dir symbols_of
build_package_symbols upper none = none
build_package_symbols upper (some files) = symbols_of upper (parse_dir files)
