-- ===== src/Ingress/FilePath.antt =====
-- `std::path::PathBuf` as src/ingress.rs uses it: the components behind the root.
use argo_rust.Base.{
  Bool, List, [], ◌∷◌, ◌++◌, Option, none, some, Str, codes, str_eq, is_empty, and_then, last, ◌==◌,
  if◌then◌else◌,
}

pub record FilePath : Type 0 where
  pub absolute : Bool
  pub parts : List Str

-- `Path::join` with a relative name of one component.
abbrev pub join : FilePath → Str → FilePath
join p name = record p { parts = p.parts ++ name ∷ [] }

-- A file name at its last dot.
split_at_dot : Str → Option (Str × Str)
split_at_dot [] = none
split_at_dot (c ∷ s) = elim (split_at_dot s) [
  | none ↦ if c == b'.' then some ([], s) else none
  | some (stem, extension) ↦ some (c ∷ stem, extension)
]

-- `Path::extension`: `..` and a name whose only dot is its first character have none.
unfoldable pub extension : FilePath → Option Str
unfolding split_at_dot str_eq
extension p = and_then (last p.parts) λ name.
    if str_eq name (codes "..")
    then none
    else and_then (split_at_dot name) λ (stem, ext). if is_empty stem then none else some ext
