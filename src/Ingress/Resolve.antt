-- ===== src/Ingress/Resolve.antt =====
-- `resolve` of src/ingress.rs: the first rule that matches, and that there is one.
use argo_rust.Config.{Lowering}
use argo_rust.Base.{
  ◌≡◌, ◌↔◌, inl, inr, refl, ap, true, false, List, [], ◌∷◌, ◌++◌, some, Str, ok, All, Bool-cases,
}
use argo_rust.Config.{IngressRule, matches}
use argo_rust.Config.Matching.{matches_iff, catch_all}
use argo_rust.Ingress.FilePath.{FilePath}
use argo_rust.Ingress.Rules.{Readers, Files, load_from_file, IngressTable, make_table, resolve}
use argo_rust.Ingress.Reload.{Reach, IsComplete, load_from_file_iff, Reach-IsComplete}

module _ (wide : Lowering) (host path : Str) where
  abbrev pub Refuses : IngressRule → Type 0
  Refuses r = matches wide r host path ≡ false

  -- `r` is the first rule of the table that matches.
  pub data IsFirst (rules : List IngressRule) (r : IngressRule) : Type 0 where
    first :
        (front back : List IngressRule)
        → rules ≡ front ++ r ∷ back
        → All Refuses front
        → matches wide r host path ≡ true
        → IsFirst rules r

  resolve_sound :
      (rules : List IngressRule) {r : IngressRule}
      → resolve wide rules host path ≡ some r
      → IsFirst rules r
  unfolding resolve
  resolve_sound [] e = cc
  resolve_sound (x ∷ rules) {r} e = elim (Bool-cases (matches wide x host path)) [
    | inl hit ↦
        let same : x ≡ r = (let e' = (rw hit at e) in cc) in
        rw (← same) (first [] rules refl tt hit)
    | inr miss ↦ later miss (resolve_sound rules (rw miss at e))
  ]
    where
      later : Refuses x → IsFirst rules r → IsFirst (x ∷ rules) r
      later miss (first front back shape h hit) =
          first (x ∷ front) back (ap (λ (t : List IngressRule). x ∷ t) shape) (miss, h) hit

  resolve-append :
      (front back : List IngressRule) (r : IngressRule)
      → All Refuses front
      → matches wide r host path ≡ true
      → resolve wide (front ++ r ∷ back) host path ≡ some r
  unfolding resolve
  resolve-append [] back r h hit = rw hit
  resolve-append (x ∷ front) back r (miss, h) hit = rw miss (resolve-append front back r h hit)

  resolve_complete :
      (rules : List IngressRule) {r : IngressRule}
      → IsFirst rules r
      → resolve wide rules host path ≡ some r
  resolve_complete rules {r} (first front back shape h hit) =
      rw shape (resolve-append front back r h hit)

  -- `resolve` returns exactly the first rule that matches.
  pub resolve_iff :
      (rules : List IngressRule) (r : IngressRule)
      → (resolve wide rules host path ≡ some r) ↔ IsFirst rules r
  resolve_iff rules r = (resolve_sound rules, resolve_complete rules)

  resolve_from :
      (front : List IngressRule) (r : IngressRule)
      → r.hostname ≡ []
      → (hit : IngressRule) × (resolve wide (front ++ r ∷ []) host path ≡ some hit)
  unfolding resolve
  resolve_from [] r anonymous = (r, rw ((matches_iff wide r host path).1 (catch_all anonymous)))
  resolve_from (x ∷ front) r anonymous = elim (Bool-cases (matches wide x host path)) [
    | inl hit ↦ (x, rw hit)
    | inr miss ↦ let (hit, e) = resolve_from front r anonymous in (hit, rw miss e)
  ]

  pub resolve_total :
      (rules : List IngressRule)
      → IsComplete rules
      → (r : IngressRule) × (resolve wide rules host path ≡ some r)
  resolve_total rules (front, r, shape, anonymous) = rw shape (resolve_from front r anonymous)

  -- From a table that loaded, through any reloads, every request finds a rule: the branch of the
  -- caller for a request without one is never taken.
  pub resolve-Reach_total :
      (readers : Readers) (files : Files) (file : FilePath) (rules : List IngressRule)
      (table : IngressTable)
      → load_from_file readers files file ≡ ok rules
      → Reach readers file (make_table rules) table
      → (r : IngressRule) × (resolve wide table host path ≡ some r)
  unfolding make_table
  resolve-Reach_total readers files file rules table loaded reached =
      resolve_total table (
        Reach-IsComplete readers ((load_from_file_iff readers files file rules).0 loaded).1 reached)
