-- ===== src/Migrations/Latest.antt =====
-- What the check at the start of a service means.
use mesh_bug.Prelude.{
  ℕ, ◌<◌, ◌≤◌, ◌≡◌, ◌≢◌, ◌↔◌, refl, sym, ap, ◌∙◌, ltb, true, false, some, List, [], ◌∷◌, Bytes,
  arith, ◌⊎◌, inl, inr, Option-cases, Bool-cases, ℕ_discrete,
}
use mesh_bug.Migrations.{
  version_of, larger, greatest, Applied, nothing, version, passed, compared, check_one,
}

-- No file has a version above `m`.
abbrev pub AtMost : ℕ → List Bytes → Type 0
AtMost m [] = Unit
AtMost m (e ∷ es) = ((v : ℕ) → version_of e ≡ some v → v ≤ m) × AtMost m es

-- Some file has the version `m`.
abbrev pub Has : ℕ → List Bytes → Type 0
Has m [] = ⊥
Has m (e ∷ es) = (version_of e ≡ some m) ⊎ Has m es

greatest_le : (es : List Bytes) (m : ℕ) → m ≤ greatest es m
unfolding greatest
greatest_le [] m = omega arith
greatest_le (e ∷ es) m = elim (Option-cases (version_of e)) [
  | inl n ↦ ground (arith, n, greatest_le es m)
  | inr (v, h) ↦ ground (arith, h, greatest_le es m, greatest_le es v)
]

greatest-AtMost : (es : List Bytes) (m : ℕ) → AtMost (greatest es m) es
unfolding greatest
greatest-AtMost [] m = tt
greatest-AtMost (e ∷ es) m = (
  (λ v h. ground (arith, h, greatest_le es (larger (version_of e) m))),
  greatest-AtMost es (larger (version_of e) m),
)

greatest-Has : (es : List Bytes) (m : ℕ) → (greatest es m ≡ m) ⊎ Has (greatest es m) es
unfolding greatest
greatest-Has [] m = inl refl
greatest-Has (e ∷ es) m = elim (greatest-Has es (larger (version_of e) m)) [
  | inr h ↦ inr (inr h)
  | inl q ↦ elim (Option-cases (version_of e)) [
    | inl n ↦ inl (ground (arith, n, q))
    | inr (v, h) ↦ elim (Bool-cases (ltb m v)) [
      | inl b ↦ inr (inl (ground (arith, h, b, q)))
      | inr b ↦ inl (ground (arith, h, b, q))
    ]
  ]
]

-- The database stands, clean, at the greatest version of the files.
pub record UpToDate (es : List Bytes) (a : Applied) : Type 0 where
  pub at : ℕ
  pub clean : a ≡ version at false
  pub positive : 0 < at
  pub no_newer : AtMost at es
  pub has_file : Has at es

Has-AtMost : (es : List Bytes) (m v : ℕ) → AtMost m es → Has v es → v ≤ m
Has-AtMost [] m v a h = absurd h
Has-AtMost (e ∷ es) m v a (inl h) = a.0 v h
Has-AtMost (e ∷ es) m v a (inr h) = Has-AtMost es m v a.1 h

check_one-greatest :
    (es : List Bytes) (a : Applied)
    → greatest es 0 ≢ 0
    → check_one es a ≡ compared (greatest es 0) a
unfolding check_one
check_one-greatest es a n = ground (arith, n)

no-files : (es : List Bytes) (a : Applied) → greatest es 0 ≡ 0 → check_one es a ≢ passed
unfolding check_one
no-files es a z e = ground (arith, z, e)

compared-passed :
    (want : ℕ) (a : Applied) → 0 < want → compared want a ≡ passed → a ≡ version want false
compared-passed want nothing p e = absurd (ground (arith, p, e))
compared-passed want (version have true) p e = cc
compared-passed want (version have false) p e = ground (arith, p, e)

up_to_date : (es : List Bytes) (a : Applied) → check_one es a ≡ passed → UpToDate es a
up_to_date es a e = elim (greatest-Has es 0) [
  | inl z ↦ absurd (no-files es a z e)
  | inr h ↦ elim (ℕ_discrete (greatest es 0) 0) [
    | yes z ↦ absurd (no-files es a z e)
    | no n ↦ record {
      at = greatest es 0;
      clean =
          compared-passed (greatest es 0) a (omega (arith, n))
            (sym (check_one-greatest es a n) ∙ e);
      positive = omega (arith, n);
      no_newer = greatest-AtMost es 0;
      has_file = h;
    }
  ]
]

passes : (es : List Bytes) (a : Applied) → UpToDate es a → check_one es a ≡ passed
passes es a u =
    let top : u.at ≤ greatest es 0 =
      Has-AtMost es (greatest es 0) u.at (greatest-AtMost es 0) u.has_file in
    let n : greatest es 0 ≢ 0 = λ z. omega (arith, z, top, u.positive) in
    elim (greatest-Has es 0) [
      | inl z ↦ absurd (n z)
      | inr h ↦
          let same : greatest es 0 ≡ u.at =
            omega (arith, top, Has-AtMost es u.at (greatest es 0) u.no_newer h) in
          check_one-greatest es a n
          ∙ ap (λ w. compared w a) same
          ∙ ap (compared u.at) u.clean
          ∙ ground arith
    ]

-- The check of a schema passes exactly if the database stands, clean, at a positive version that a
-- file of the schema has and that no file's version is above.
pub check_one-passed : (es : List Bytes) (a : Applied) → (check_one es a ≡ passed) ↔ UpToDate es a
check_one-passed es a = (up_to_date es a, passes es a)
