-- ===== src/ApiGuard/Files.antt =====
-- The symbols of a directory: what its files declare, sorted, whatever order they come in.
use grpc_tunnel.Prelude.{
  ℕ, Bool, true, false, ◌&&◌, ◌||◌, not, Option, none, some, List, [], ◌∷◌, ◌++◌, ◌≡◌, refl, sym,
  ap, subst, ◌∙◌, if◌then◌else◌, Bool-cases, inl, inr, is_none, arith,
}
use mathlib.Core.List.{Permᴰ}
use grpc_tunnel.Prelude.Text.{Text}
use grpc_tunnel.Prelude.Sorted.{
  has_text, sort_texts, has_text-sort, sort_texts-IsSorted, IsSorted, IsSorted-unique, no_member,
}
use grpc_tunnel.ApiGuard.{
  Decl, SourceFile, is_source_file, parse_dir, both, symbols_of, store_declarations,
  build_package_symbols,
}
use grpc_tunnel.ApiGuard.Symbols.{decls_declare, decls-Adds}

abbrev pub parsed_declares : (ℕ → Bool) → Option (List Decl) → Text → Bool
parsed_declares upper none t = false
parsed_declares upper (some ds) t = decls_declare upper ds t

abbrev file_declares : (ℕ → Bool) → SourceFile → Text → Bool
file_declares upper f t = is_source_file f.name && parsed_declares upper f.declarations t

abbrev file_parses : SourceFile → Bool
file_parses f = not (is_source_file f.name && is_none f.declarations)

-- Some file that the filter keeps declares the exported symbol.
abbrev pub files_declare : (ℕ → Bool) → List SourceFile → Text → Bool
files_declare upper [] t = false
files_declare upper (f ∷ fs) t =
    (is_source_file f.name && parsed_declares upper f.declarations t) || files_declare upper fs t

-- Every file that the filter keeps parses.
abbrev pub all_parse : List SourceFile → Bool
all_parse [] = true
all_parse (f ∷ fs) = not (is_source_file f.name && is_none f.declarations) && all_parse fs

decls_declare-append :
    (upper : ℕ → Bool) (ds es : List Decl) (t : Text)
    → decls_declare upper (ds ++ es) t ≡ (decls_declare upper ds t || decls_declare upper es t)
decls_declare-append upper [] es t = refl
decls_declare-append upper (d ∷ ds) es t = ground (arith, decls_declare-append upper ds es t)

-- One file before the others, by whether the filter keeps it and whether it parses.
abbrev with_file : Bool → Option (List Decl) → Option (List Decl) → Option (List Decl)
with_file kept ds rest = if kept then both ds rest else rest

with_file-is_none :
    (kept : Bool) (ds rest : Option (List Decl))
    → not (is_none (with_file kept ds rest)) ≡ (not (kept && is_none ds) && not (is_none rest))
with_file-is_none true none rest = refl
with_file-is_none true (some ds) none = refl
with_file-is_none true (some ds) (some rest) = refl
with_file-is_none false ds rest = refl

parse_dir-is_none : (fs : List SourceFile) → not (is_none (parse_dir fs)) ≡ all_parse fs
unfolding parse_dir
parse_dir-is_none [] = refl
parse_dir-is_none (f ∷ fs) =
    with_file-is_none (is_source_file f.name) f.declarations (parse_dir fs)
    ∙ ap (λ (b : Bool). not (is_source_file f.name && is_none f.declarations) && b)
        (parse_dir-is_none fs)

with_file-declares :
    (upper : ℕ → Bool) (kept : Bool) (ds rest : Option (List Decl)) (t : Text)
    → not (kept && is_none ds) ≡ true
    → not (is_none rest) ≡ true
    → parsed_declares upper (with_file kept ds rest) t
      ≡ ((kept && parsed_declares upper ds t) || parsed_declares upper rest t)
with_file-declares upper true (some ds) (some rest) t h k = decls_declare-append upper ds rest t
with_file-declares upper true (some ds) none t h k = cc
with_file-declares upper true none rest t h k = cc
with_file-declares upper false ds rest t h k = refl

parse_dir-declares :
    (upper : ℕ → Bool) (fs : List SourceFile) (t : Text)
    → all_parse fs ≡ true
    → parsed_declares upper (parse_dir fs) t ≡ files_declare upper fs t
unfolding parse_dir
parse_dir-declares upper [] t h = refl
parse_dir-declares upper (f ∷ fs) t h =
    with_file-declares upper (is_source_file f.name) f.declarations (parse_dir fs) t (ground arith)
      (parse_dir-is_none fs ∙ ground arith)
    ∙ ap (λ (b : Bool). (is_source_file f.name && parsed_declares upper f.declarations t) || b)
        (parse_dir-declares upper fs t (ground arith))

-- The symbols of the parsed declarations are sorted, and are what these declare.
symbols_of-Finds :
    (upper : ℕ → Bool) (parsed : Option (List Decl)) (symbols : List Text)
    → symbols_of upper parsed ≡ some symbols
    → IsSorted symbols × ((t : Text) → has_text symbols t ≡ parsed_declares upper parsed t)
unfolding symbols_of
symbols_of-Finds upper none symbols h = absurd (ground arith)
symbols_of-Finds upper (some ds) symbols h =
    let (unique, members) = decls-Adds upper ds [] tt in
    let same : sort_texts (store_declarations upper ds []) ≡ symbols = cc in
    (
      subst IsSorted same (sort_texts-IsSorted (store_declarations upper ds []) unique),
      λ t. rw (← same) (
          has_text-sort (store_declarations upper ds []) t
          ∙ ground (arith, members t, no_member t)),
    )

symbols_of-parsed :
    (upper : ℕ → Bool) (parsed : Option (List Decl)) (symbols : List Text)
    → symbols_of upper parsed ≡ some symbols
    → not (is_none parsed) ≡ true
unfolding symbols_of
symbols_of-parsed upper none symbols h = ground arith
symbols_of-parsed upper (some ds) symbols h = refl

-- The symbols of a directory, where every file that the filter keeps parses, are strictly increasing
-- and exactly the exported symbols that these files declare; otherwise there are none.
pub build_package_symbols-Finds :
    (upper : ℕ → Bool) (files : List SourceFile) (symbols : List Text)
    → build_package_symbols upper (some files) ≡ some symbols
    → (all_parse files ≡ true)
      × IsSorted symbols
      × ((t : Text) → has_text symbols t ≡ files_declare upper files t)
unfolding build_package_symbols
build_package_symbols-Finds upper files symbols h =
    let (sorted, members) = symbols_of-Finds upper (parse_dir files) symbols h in
    let parses : all_parse files ≡ true =
      sym (parse_dir-is_none files) ∙ symbols_of-parsed upper (parse_dir files) symbols h in
    (parses, sorted, λ t. members t ∙ parse_dir-declares upper files t parses)

and_swap : (x y z : Bool) → (x && (y && z)) ≡ (y && (x && z))
and_swap true y z = refl
and_swap false true z = refl
and_swap false false z = refl

or_swap : (x y z : Bool) → (x || (y || z)) ≡ (y || (x || z))
or_swap false y z = refl
or_swap true true z = refl
or_swap true false z = refl

-- Reordered files parse alike and declare the same.
all_parse-perm : {fs gs : List SourceFile} → Permᴰ fs gs → all_parse fs ≡ all_parse gs
all_parse-perm Permᴰ.nil = refl
all_parse-perm (Permᴰ.cons e p) = ground (arith, all_parse-perm p)
all_parse-perm (Permᴰ.swap {a = a} {b = b} {l = l} e e') =
    rw (← e, ← e') (and_swap (file_parses a) (file_parses b) (all_parse l))
all_parse-perm (Permᴰ.trans p q) = all_parse-perm p ∙ all_parse-perm q

files_declare-perm :
    (upper : ℕ → Bool) {fs gs : List SourceFile} (t : Text)
    → Permᴰ fs gs
    → files_declare upper fs t ≡ files_declare upper gs t
files_declare-perm upper t Permᴰ.nil = refl
files_declare-perm upper t (Permᴰ.cons e p) = ground (arith, files_declare-perm upper t p)
files_declare-perm upper t (Permᴰ.swap {a = a} {b = b} {l = l} e e') =
    rw (← e, ← e')
      (or_swap (file_declares upper a t) (file_declares upper b t) (files_declare upper l t))
files_declare-perm upper t (Permᴰ.trans p q) =
    files_declare-perm upper t p ∙ files_declare-perm upper t q

build-some :
    (upper : ℕ → Bool) (parsed : Option (List Decl))
    → not (is_none parsed) ≡ true
    → (symbols : List Text) × (symbols_of upper parsed ≡ some symbols)
unfolding symbols_of
build-some upper none h = cc
build-some upper (some ds) h = (sort_texts (store_declarations upper ds []), refl)

build-none :
    (upper : ℕ → Bool) (parsed : Option (List Decl))
    → not (is_none parsed) ≡ false
    → symbols_of upper parsed ≡ none
unfolding symbols_of
build-none upper none h = refl
build-none upper (some ds) h = cc

-- The symbols of a directory do not depend on the order in which its packages and files come.
pub build_package_symbols-perm :
    (upper : ℕ → Bool) (fs gs : List SourceFile)
    → Permᴰ fs gs
    → build_package_symbols upper (some fs) ≡ build_package_symbols upper (some gs)
unfolding build_package_symbols
build_package_symbols-perm upper fs gs p =
    let left = parse_dir-is_none fs in
    let right : not (is_none (parse_dir gs)) ≡ all_parse fs =
      parse_dir-is_none gs ∙ sym (all_parse-perm p) in
    elim (Bool-cases (all_parse fs)) [
      | inl parses ↦
          let (xs, found) = build-some upper (parse_dir fs) (left ∙ parses) in
          let (ys, found') = build-some upper (parse_dir gs) (right ∙ parses) in
          let (c, sorted, members) =
            build_package_symbols-Finds upper fs xs (unfold build_package_symbols in found) in
          let (c', sorted', members') =
            build_package_symbols-Finds upper gs ys (unfold build_package_symbols in found') in
          found
          ∙ ap some (
              IsSorted-unique xs ys sorted sorted'
                (λ t. members t ∙ files_declare-perm upper t p ∙ sym (members' t)))
          ∙ sym found'
      | inr fails ↦
          build-none upper (parse_dir fs) (left ∙ fails)
          ∙ sym (build-none upper (parse_dir gs) (right ∙ fails))
    ]
