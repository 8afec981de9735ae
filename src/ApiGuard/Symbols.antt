-- ===== src/ApiGuard/Symbols.antt =====
-- Which symbols the guard finds: exactly the exported names of the files, sorted, whatever order the
-- files and packages come in.
use grpc_tunnel.Prelude.{
  ℕ, Bool, true, false, ◌&&◌, ◌||◌, List, [], ◌∷◌, ◌++◌, ◌≡◌, refl, if◌then◌else◌, Bool-cases, inl,
  inr, arith,
}
use grpc_tunnel.Prelude.Text.{Text, lit, text_eq, text_eq_iff}
use grpc_tunnel.Prelude.Sorted.{has_text, IsUnique}
use grpc_tunnel.ApiGuard.{
  Spec, type_spec, value_spec, Tok, type_tok, const_tok, var_tok, Decl, gen_decl, func_decl,
  bad_decl, is_exported, store_symbol, store_name, store_names, store_spec,
  store_gen_declaration_symbols, func_symbol, store_func_declaration_symbol,
  store_declaration_symbols, store_declarations,
}

-- Whether a name, a specification, a declaration or a file declares an exported symbol.
abbrev pub name_declares : (ℕ → Bool) → Text → Text → Text → Bool
name_declares upper kind name t = is_exported upper name && text_eq (kind ++ name) t

abbrev pub names_declare : (ℕ → Bool) → Text → List Text → Text → Bool
names_declare upper kind [] t = false
names_declare upper kind (name ∷ names) t =
    name_declares upper kind name t || names_declare upper kind names t

abbrev pub spec_declares : (ℕ → Bool) → Tok → Spec → Text → Bool
spec_declares upper type_tok (type_spec name) t = name_declares upper (lit "type ") name t
spec_declares upper const_tok (value_spec names) t = names_declare upper (lit "const ") names t
spec_declares upper var_tok (value_spec names) t = names_declare upper (lit "var ") names t
spec_declares upper tok spec t = false

abbrev pub specs_declare : (ℕ → Bool) → Tok → List Spec → Text → Bool
specs_declare upper tok [] t = false
specs_declare upper tok (spec ∷ specs) t =
    spec_declares upper tok spec t || specs_declare upper tok specs t

abbrev pub decl_declares : (ℕ → Bool) → Decl → Text → Bool
decl_declares upper (gen_decl tok specs) t = specs_declare upper tok specs t
decl_declares upper (func_decl name receivers) t =
    is_exported upper name && text_eq (func_symbol name receivers) t
decl_declares upper bad_decl t = false

abbrev pub decls_declare : (ℕ → Bool) → List Decl → Text → Bool
decls_declare upper [] t = false
decls_declare upper (d ∷ ds) t = decl_declares upper d t || decls_declare upper ds t

-- What a step of the collection does to the set: it stays without repetition and gets these members.
abbrev Adds : (List Text → List Text) → (Text → Bool) → Type 0
Adds step members =
    (set : List Text)
    → IsUnique set
    → IsUnique (step set) × ((t : Text) → has_text (step set) t ≡ (members t || has_text set t))

has_text-end :
    (ss : List Text) (s t : Text) → has_text (ss ++ s ∷ []) t ≡ (text_eq s t || has_text ss t)
unfolding has_text
has_text-end [] s t = refl
has_text-end (u ∷ ss) s t = ground (arith, has_text-end ss s t)

IsUnique-end :
    (ss : List Text) (s : Text) → IsUnique ss → has_text ss s ≡ false → IsUnique (ss ++ s ∷ [])
unfolding has_text
IsUnique-end [] s u n = (refl, tt)
IsUnique-end (v ∷ ss) s (m, u) n = (
  rw (has_text-end ss s v) (ground (arith, text_eq_iff s v, text_eq_iff v s)),
  IsUnique-end ss s u (ground arith),
)

store_symbol-Adds : (s : Text) → Adds (store_symbol s) (text_eq s)
unfolding store_symbol
store_symbol-Adds s set u = elim (Bool-cases (has_text set s)) [
  | inl there ↦ rw there (u, λ t. ground (arith, text_eq_iff s t))
  | inr new ↦ rw new (IsUnique-end set s u new, λ t. has_text-end set s t)
]

-- A step under a test, and two steps in a row.
if-Adds :
    (b : Bool) (step : List Text → List Text) (members : Text → Bool)
    → Adds step members
    → Adds (λ set. if b then step set else set) (λ t. b && members t)
if-Adds true step members a = a
if-Adds false step members a = λ set u. (u, λ t. refl)

then-Adds :
    (f g : List Text → List Text) (m n : Text → Bool)
    → Adds f m
    → Adds g n
    → Adds (λ set. g (f set)) (λ t. m t || n t)
then-Adds f g m n a b set u =
    let (u', h) = a set u in let (u'', k) = b (f set) u' in (u'', λ t. ground (arith, h t, k t))

none-Adds : Adds (λ set. set) (λ t. false)
none-Adds set u = (u, λ t. refl)

module _ (upper : ℕ → Bool) where
  name-Adds : (kind name : Text) → Adds (store_name upper kind name) (name_declares upper kind name)
  unfolding store_name is_exported store_symbol
  name-Adds kind name =
      if-Adds (is_exported upper name) (store_symbol (kind ++ name)) (text_eq (kind ++ name))
        (store_symbol-Adds (kind ++ name))

  names-Adds :
      (kind : Text) (names : List Text)
      → Adds (store_names upper kind names) (names_declare upper kind names)
  unfolding store_names
  names-Adds kind [] = none-Adds
  names-Adds kind (name ∷ names) =
      then-Adds (store_name upper kind name) (store_names upper kind names) _ _
        (name-Adds kind name) (names-Adds kind names)

  spec-Adds :
      (tok : Tok) (spec : Spec) → Adds (store_spec upper tok spec) (spec_declares upper tok spec)
  unfolding store_spec store_name store_names
  spec-Adds type_tok (type_spec name) = name-Adds (lit "type ") name
  spec-Adds const_tok (value_spec names) = names-Adds (lit "const ") names
  spec-Adds var_tok (value_spec names) = names-Adds (lit "var ") names
  spec-Adds tok spec = none-Adds

  specs-Adds :
      (tok : Tok) (specs : List Spec)
      → Adds (store_gen_declaration_symbols upper tok specs) (specs_declare upper tok specs)
  unfolding store_gen_declaration_symbols
  specs-Adds tok [] = none-Adds
  specs-Adds tok (spec ∷ specs) =
      then-Adds (store_spec upper tok spec) (store_gen_declaration_symbols upper tok specs) _ _
        (spec-Adds tok spec) (specs-Adds tok specs)

  decl-Adds : (d : Decl) → Adds (store_declaration_symbols upper d) (decl_declares upper d)
  unfolding store_declaration_symbols store_gen_declaration_symbols store_func_declaration_symbol
  decl-Adds (gen_decl tok specs) = specs-Adds tok specs
  decl-Adds (func_decl name receivers) =
      if-Adds (is_exported upper name) (store_symbol (func_symbol name receivers)) _
        (store_symbol-Adds (func_symbol name receivers))
  decl-Adds bad_decl = none-Adds

  pub decls-Adds : (ds : List Decl) → Adds (store_declarations upper ds) (decls_declare upper ds)
  unfolding store_declarations
  decls-Adds [] = none-Adds
  decls-Adds (d ∷ ds) =
      then-Adds (store_declaration_symbols upper d) (store_declarations upper ds) _ _ (decl-Adds d)
        (decls-Adds ds)
