-- ===== src/Tests/Ingress.antt =====
-- The table of rules at concrete inputs.
use argo_rust.Config.{Lowering}
use argo_rust.Base.{is_empty, ◌≡◌, ◌↔◌, refl, true, List, [], ◌∷◌, none, some, codes, ok, str_eq}
use argo_rust.Config.{IngressRule}
use argo_rust.Ingress.FilePath.{extension}
use argo_rust.Ingress.Rules.{
  Readers, Files, validate_rules, load_from_file, make_table, resolve, system_config,
}
use argo_rust.Ingress.Reload.{IsComplete, Loads, Reach, here, next, reload, load_from_file_iff}
use argo_rust.Ingress.Resolve.{IsFirst, resolve_iff, resolve-Reach_total}

abbrev same : Lowering
same = record { lower = λ c. c ∷ []; is_final = λ before after. is_empty after }

abbrev site : IngressRule
site = record { hostname = codes "a.org"; path = []; service = codes "http://localhost:8080" }

abbrev last_rule : IngressRule
last_rule = record { hostname = []; path = []; service = codes "http_status:404" }

abbrev table : List IngressRule
table = site ∷ last_rule ∷ []

abbrev readers : Readers
readers = record { from_json = λ s. none; from_yaml = λ s. some table }

abbrev files : Files
files = record {
  read_to_string = λ path. some (codes "ingress:");
  exists = λ path. true;
  home_dir = none;
}

table-IsComplete : IsComplete table
table-IsComplete = (site ∷ [], last_rule, refl, refl)

loaded : load_from_file readers files system_config ≡ ok table
unfolding load_from_file validate_rules extension str_eq
loaded = refl

-- A round that loads the table, and one where the file is gone.
reached : Reach readers system_config (make_table table) (reload readers system_config files table)
unfolding make_table
reached = next files here

load_from_file_iff_example :
    (load_from_file readers files system_config ≡ ok table)
    ↔ (Loads readers files system_config table × IsComplete table)
load_from_file_iff_example = load_from_file_iff readers files system_config table

resolve_iff_example :
    (resolve same table (codes "b.org") (codes "/") ≡ some last_rule)
    ↔ IsFirst same (codes "b.org") (codes "/") table last_rule
resolve_iff_example = resolve_iff same (codes "b.org") (codes "/") table last_rule

resolve-Reach_total_example :
    (r : IngressRule) × (resolve same
        (reload readers system_config files table)
        (codes "a.org:80")
        (codes "/x")
      ≡ some r)
resolve-Reach_total_example =
    resolve-Reach_total same (codes "a.org:80") (codes "/x") readers files system_config table
      (reload readers system_config files table) loaded reached
