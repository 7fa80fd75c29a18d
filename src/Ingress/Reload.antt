-- ===== src/Ingress/Reload.antt =====
-- `start_reload_task` of src/ingress.rs beside the requests, and what `resolve` finds.
use argo_rust.Base.{
  ◌≡◌, ◌↔◌, ◌⊎◌, inl, inr, refl, ap, true, false, List, [], ◌∷◌, ◌++◌, Option, none, some, Str,
  is_empty, subst, ok, err, ok_or, ◌>>=◌, ◌>>◌, last, last-append, last-eq-some, Bool-cases,
  Option-cases, Result-cases, ensure,
}
use argo_rust.Config.{IngressRule}
use argo_rust.Ingress.FilePath.{FilePath}
use argo_rust.Ingress.Rules.{
  Readers, Files, ConfigError, no_catch_all, validate_rules, invalid_json, invalid_yaml,
  load_from_file, is_json, IngressTable,
}

-- One round of the task: a table that loads replaces the old one, a failure keeps it.
unfoldable pub reload : Readers → FilePath → Files → IngressTable → IngressTable
reload readers path files table = elim (load_from_file readers files path) [
  | ok rules ↦ rules
  | err e ↦ table
]

-- The tables that the task can have put in place, whatever the files held at each round.
pub data Reach (readers : Readers) (path : FilePath) (start : IngressTable)
    : IngressTable → Type 0 where
  here : Reach readers path start start
  next :
      {table : IngressTable} (files : Files)
      → Reach readers path start table
      → Reach readers path start (reload readers path files table)

-- The last rule has no hostname.
abbrev pub IsComplete : List IngressRule → Type 0
IsComplete rules =
    (front : List IngressRule) × (rule : IngressRule) × (rules ≡ front ++ rule ∷ [])
    × (rule.hostname ≡ [])

-- The check accepts exactly the tables whose last rule is a catch-all, so never an empty one.
pub validate_rules_iff :
    (rules : List IngressRule) → (validate_rules rules ≡ ok tt) ↔ IsComplete rules
unfolding validate_rules
validate_rules_iff rules = (sound (Option-cases (last rules)), complete)
  where
    empty_hostname : (s : Str) → ensure (is_empty s) no_catch_all ≡ ok tt → s ≡ []
    empty_hostname [] e = refl
    empty_hostname (c ∷ s) e = cc

    sound :
        (last rules ≡ none) ⊎ ((r : IngressRule) × (last rules ≡ some r))
        → validate_rules rules ≡ ok tt
        → IsComplete rules
    sound (inl absent) e = let wrong = (rw (absent, validate_rules) at e) in cc wrong
    sound (inr (rule, found)) e =
        let (front, shape) = last-eq-some rules found in
        (front, rule, shape, empty_hostname rule.hostname (rw (found, validate_rules) at e))

    complete : IsComplete rules → validate_rules rules ≡ ok tt
    complete (front, rule, shape, anonymous) =
        let found = last-append front rule in rw shape (rw (found, validate_rules) (rw anonymous))

module _ (readers : Readers) where
  -- The text at the path, read as the extension says.
  pub data Loads (files : Files) (path : FilePath) (rules : List IngressRule) : Type 0 where
    json :
        (content : Str)
        → is_json path ≡ true
        → files.read_to_string path ≡ some content
        → readers.from_json content ≡ some rules
        → Loads files path rules
    yaml :
        (content : Str)
        → is_json path ≡ false
        → files.read_to_string path ≡ some content
        → readers.from_yaml content ≡ some rules
        → Loads files path rules

  checked :
      (o : Option (List IngressRule)) (x : ConfigError) (rules : List IngressRule)
      → (do found ← ok_or o x; validate_rules found; ok found) ≡ ok rules
      → (o ≡ some rules) × IsComplete rules
  checked none x rules e = cc
  checked (some found) x rules e = elim (Result-cases (validate_rules found)) [
    | inl (tt, valid) ↦
        let same : found ≡ rules = (let e' = (rw valid at e) in cc) in
        (ap some same, subst IsComplete same ((validate_rules_iff found).0 (valid)))
    | inr (y, wrong) ↦ let e' = (rw wrong at e) in cc
  ]

  load_sound :
      (files : Files) (path : FilePath) (rules : List IngressRule)
      → load_from_file readers files path ≡ ok rules
      → Loads files path rules × IsComplete rules
  unfolding load_from_file
  load_sound files path rules e = elim (Option-cases (files.read_to_string path)) [
    | inl absent ↦ let wrong = (rw absent at e) in cc wrong
    | inr (content, found) ↦ elim (Bool-cases (is_json path)) [
      | inl is_it ↦
          let (parsed, complete) =
            checked (readers.from_json content) invalid_json rules (rw (found, is_it) at e) in
          (json content is_it found parsed, complete)
      | inr not_it ↦
          let (parsed, complete) =
            checked (readers.from_yaml content) invalid_yaml rules (rw (found, not_it) at e) in
          (yaml content not_it found parsed, complete)
    ]
  ]

  load_complete :
      (files : Files) (path : FilePath) (rules : List IngressRule)
      → Loads files path rules
      → IsComplete rules
      → load_from_file readers files path ≡ ok rules
  unfolding load_from_file
  load_complete files path rules (json content is_it found parsed) c =
      rw (found, is_it, parsed, (validate_rules_iff rules).1 c)
  load_complete files path rules (yaml content not_it found parsed) c =
      rw (found, not_it, parsed, (validate_rules_iff rules).1 c)

  -- Loading succeeds exactly when the file reads as rules whose last one is a catch-all.
  pub load_from_file_iff :
      (files : Files) (path : FilePath) (rules : List IngressRule)
      → (load_from_file readers files path ≡ ok rules) ↔ (Loads files path rules × IsComplete rules)
  load_from_file_iff files path rules =
      (load_sound files path rules, λ (l, c). load_complete files path rules l c)

  -- Whatever the file holds at a round, a checked table is replaced by a checked table.
  pub reload-IsComplete :
      (files : Files) (path : FilePath) (table : IngressTable)
      → IsComplete table
      → IsComplete (reload readers path files table)
  unfolding reload
  reload-IsComplete files path table h = elim (Result-cases (load_from_file readers files path)) [
    | inl (rules, loaded) ↦ rw (loaded, reload) ((load_sound files path rules loaded).1)
    | inr (e, failed) ↦ rw (failed, reload) h
  ]

  -- From a table that ends in a catch-all, every table that the task puts in place ends in one.
  pub Reach-IsComplete :
      {path : FilePath} {start table : IngressTable}
      → IsComplete start
      → Reach readers path start table
      → IsComplete table
  Reach-IsComplete h here = h
  Reach-IsComplete {path} h (next {table} files r) =
      reload-IsComplete files path table (Reach-IsComplete h r)
