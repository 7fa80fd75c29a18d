-- ===== src/Ingress/Rules.antt =====
-- `load_from_file`, `validate_rules`, `default_config_path`, `resolve` and `print_rules`.
use argo_rust.Config.{Lowering}
use argo_rust.Base.{
  ℕ, ◌+◌, Bool, true, false, List, [], ◌∷◌, ◌++◌, Option, none, some, Str, codes, str_eq, is_empty,
  length, decimal, Result, ok, err, ◌>>=◌, ◌>>◌, ok_or, ensure, last, if◌then◌else◌,
}
use argo_rust.Config.{IngressRule, matches}
use argo_rust.Ingress.FilePath.{FilePath, join, extension}

pub data ConfigError : Type 0 where
  cannot_read invalid_json invalid_yaml no_rules no_catch_all : ConfigError

-- The serde readers of `ConfigFile`, and the file system at one moment.
pub record Readers : Type 0 where
  pub from_json : Str → Option (List IngressRule)
  pub from_yaml : Str → Option (List IngressRule)

pub record Files : Type 0 where
  pub read_to_string : FilePath → Option Str
  pub exists : FilePath → Bool
  pub home_dir : Option FilePath

-- `rules.last().unwrap()` cannot fail behind the test of emptiness.
unfoldable pub validate_rules : List IngressRule → Result ConfigError (Unit {0})
validate_rules rules = elim (last rules) [
  | none ↦ err no_rules
  | some rule ↦ ensure (is_empty rule.hostname) no_catch_all
]

abbrev pub is_json : FilePath → Bool
is_json path = elim (extension path) [ none ↦ false | some ext ↦ str_eq ext (codes "json") ]

module _ (readers : Readers) where
  unfoldable pub load_from_file : Files → FilePath → Result ConfigError (List IngressRule)
  load_from_file files path = do
    content ← ok_or (files.read_to_string path) cannot_read
    rules ←
        if is_json path
        then ok_or (readers.from_json content) invalid_json
        else ok_or (readers.from_yaml content) invalid_yaml
    validate_rules rules
    ok rules

abbrev if_exists : Files → FilePath → Option FilePath → Option FilePath
if_exists files p other = if files.exists p then some p else other

abbrev pub system_config : FilePath
system_config = record {
  absolute = true;
  parts = codes "etc" ∷ codes "cloudflared" ∷ codes "config.yaml" ∷ [];
}

unfoldable pub default_config_path : Files → Option FilePath
default_config_path files =
    let system = if_exists files system_config none in
    elim files.home_dir [
      | none ↦ system
      | some home ↦
          if_exists files (join (join home (codes ".cloudflared")) (codes "config.yaml"))
            (if_exists files (join (join home (codes ".cloudflared")) (codes "config.json")) system)
    ]

-- `Arc<RwLock<Vec<IngressRule>>>`: each reader and writer sees a whole table.
abbrev pub IngressTable : Type 0
IngressTable = List IngressRule

unfoldable pub make_table : List IngressRule → IngressTable
make_table rules = rules

-- `rules.iter().find(|r| r.matches(host, path)).cloned()`
unfoldable pub resolve : Lowering → IngressTable → Str → Str → Option IngressRule
resolve wide [] host path = none
resolve wide (r ∷ rules) host path =
    if matches wide r host path then some r else resolve wide rules host path

abbrev print_rule : ℕ → IngressRule → Str
print_rule i rule =
    if is_empty rule.hostname
    then codes "  Rule " ++ (decimal (i + 1) ++ (codes ": (catch-all) → " ++ rule.service))
    else codes "  Rule "
      ++ (decimal (i + 1)
          ++ (codes ": "
              ++ (rule.hostname
                  ++ ((if is_empty rule.path then [] else codes "/" ++ rule.path)
                      ++ (codes "  →  " ++ rule.service)))))

print_rules_from : ℕ → List IngressRule → List Str
print_rules_from i [] = []
print_rules_from i (rule ∷ rules) = print_rule i rule ∷ print_rules_from (i + 1) rules

-- The lines that go to the log.
unfoldable pub print_rules : List IngressRule → List Str
unfolding print_rules_from decimal
print_rules rules =
    (codes "Loaded " ++ (decimal (length rules) ++ codes " ingress rule(s):"))
    ∷ print_rules_from 0 rules
