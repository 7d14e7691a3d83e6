-- ===== src/Semantic/Languages.antt =====
-- crates/orkia-semantic/src/lib.rs: languages, and the syntax that bounds an atom. `char::is_alphanumeric`
-- is a parameter.
use boop_orkia_cli.Prelude.{
  ℕ, leb, nat_eq, Bool, true, false, not, ◌&&◌, ◌||◌, Option, none, some, List, [], ◌∷◌, ◌++◌, ◌+◌,
  map, any, is_empty, if◌then◌else◌, String, nat_ord, list_ord,
}
use boop_orkia_cli.Prelude.Sets.{contains}
use boop_orkia_cli.Prelude.Text.{Text, text}
use boop_orkia_cli.Model.Atoms.{AtomKind}
use boop_orkia_cli.Projection.Applying.{ends_with, find}

pub data Language : Type 0 where
  rust typescript javascript python go java c cpp swift unknown_language : Language

-- `matches!(text, …)`
abbrev pub is_one_of : List String → Text → Bool
is_one_of names t = contains t (map text names)

-- `rsplit(separator).next()`: what stands behind the last separator, with that part read so far
unfoldable pub last_part : ℕ → Text → Text → Text
last_part separator part [] = part
last_part separator part (x ∷ t) = elim (nat_eq x separator) [
  | true ↦ last_part separator [] t
  | false ↦ last_part separator (part ++ x ∷ []) t
]

-- `Language::from_path`
unfoldable pub from_path : Text → Language
from_path path =
    let extension = last_part b'.' [] path in
    if is_one_of ("rs" ∷ []) extension
    then Language.rust
    else if is_one_of ("ts" ∷ "tsx" ∷ []) extension
    then Language.typescript
    else if is_one_of ("js" ∷ "jsx" ∷ "mjs" ∷ "cjs" ∷ []) extension
    then Language.javascript
    else if is_one_of ("py" ∷ []) extension
    then Language.python
    else if is_one_of ("go" ∷ []) extension
    then Language.go
    else if is_one_of ("java" ∷ []) extension
    then Language.java
    else if is_one_of ("c" ∷ "h" ∷ []) extension
    then Language.c
    else if is_one_of ("cc" ∷ "cpp" ∷ "cxx" ∷ "hpp" ∷ "hh" ∷ []) extension
    then Language.cpp
    else if is_one_of ("swift" ∷ []) extension
    then Language.swift
    else Language.unknown_language

unfoldable pub is_review_boundary : Text → Bool
is_review_boundary kind =
    is_one_of
      ("function_item" ∷ "function_definition" ∷ "function_declaration" ∷ "method_definition"
        ∷ "method_declaration" ∷ "class_definition" ∷ "class_declaration" ∷ "struct_item"
        ∷ "enum_item" ∷ "interface_declaration" ∷ "impl_item" ∷ "import_statement"
        ∷ "import_declaration" ∷ "use_declaration" ∷ "lexical_declaration" ∷ [])
      kind

unfoldable pub is_block_boundary : Text → Bool
is_block_boundary kind =
    is_one_of ("block" ∷ "compound_statement" ∷ "block_statement" ∷ "statement_block" ∷ []) kind

abbrev pub is_found : Option ℕ → Bool
is_found none = false
is_found (some n) = true

-- `text.contains(part)`
abbrev pub holds_part : Text → Text → Bool
holds_part part t = is_found (find part t)

abbrev pub to_ascii_lowercase : Text → Text
to_ascii_lowercase t = map (λ x. if leb b'A' x && leb x b'Z' then x + 32 else x) t

unfoldable pub path_atom_kind : Text → Option AtomKind
path_atom_kind path =
    let lower = to_ascii_lowercase path in
    if holds_part (text "migration") lower || ends_with (text ".sql") lower
    then some AtomKind.migration
    else if any (λ extension. ends_with (text extension) lower)
        (".toml" ∷ ".yaml" ∷ ".yml" ∷ ".json" ∷ ".xml" ∷ ".ini" ∷ ".cfg" ∷ ".conf" ∷ ".env" ∷ [])
    then some AtomKind.configuration
    else none

-- `split(p)`, with the current part read so far
unfoldable pub split_where : (ℕ → Bool) → Text → Text → List Text
split_where p part [] = part ∷ []
split_where p part (x ∷ t) = elim (p x) [
  | true ↦ part ∷ split_where p [] t
  | false ↦ split_where p (part ++ x ∷ []) t
]

-- `find(p)` of an iterator, with the value where there is none
abbrev pub first_where : (Text → Bool) → Text → List Text → Text
first_where p default [] = default
first_where p default (x ∷ xs) = if p x then x else first_where p default xs

-- `symbol_name`, which always finds one.
unfoldable pub symbol_name : (is_alphanumeric : ℕ → Bool) → Text → Text → Text
symbol_name is_alphanumeric t fallback =
    first_where
      (λ word.
        not (is_empty word)
        && not (
            is_one_of
              ("fn" ∷ "func" ∷ "function" ∷ "class" ∷ "struct" ∷ "enum" ∷ "import" ∷ "use" ∷ "pub"
                ∷ "def" ∷ [])
              word))
      fallback (split_where (λ x. not (is_alphanumeric x || nat_eq x b'_')) [] t)
