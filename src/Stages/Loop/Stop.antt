-- ===== src/Stages/Loop/Stop.antt =====
-- The loop when the server may refuse a statement: it stops there, and only what it wrote is clean.
use mesh_bug.Prelude.{
  ℕ, suc, ◌≤◌, none, some, if◌then◌else◌, ◌≡◌, refl, ap, ◌∙◌, sym, Bool, true, false, Option, List,
  [], ◌∷◌, ◌++◌, Bool-cases, Option-cases, subst, arith, inl, inr, ◌⊎◌,
}
use mathlib.Core.List.{lookup}
use mesh_bug.Prelude.Maps.{Map, put, map_values}
use mesh_bug.Store.{Tx, Result, ok, err, exec}
use mesh_bug.Stages.Loop.{Table, upsert, write_dirty, written, cleaned}

-- How many statements the server answers before the first that it refuses; none if it refuses none.
abbrev pub first_refused : List Bool → Option ℕ
first_refused [] = none
first_refused (true ∷ fs) = some 0
first_refused (false ∷ fs) = elim (first_refused fs) [ none ↦ none | some n ↦ some (suc n) ]

-- The entries that the loop has to write.
abbrev pub dirty_count : {K V : Type 0} → (V → Bool) → Map K V → ℕ
dirty_count dirty [] = 0
dirty_count dirty ((k, v) ∷ m) = if dirty v then suc (dirty_count dirty m) else dirty_count dirty m

module _ {D K R V : Type 0} (dec : Discrete K) (table : Table D K R) (dirty : V → Bool)
    (clean : V → V) (row : V → Option R → R) where
  -- The entries are cut in two: the first are written and clean, the others untouched. The cut is at
  -- the dirty entry whose statement the server refuses, if it gets to that.
  pub record Stopped (es : Map K V) (d : D) (fs : List Bool)
      (w : Result (Unit {0}) × Map K V × Tx D) : Type 0 where
    pub wrote : Map K V
    pub rest : Map K V
    pub all : es ≡ wrote ++ rest
    pub memory : w.1 ≡ map_values (cleaned dec table dirty clean row) wrote ++ rest
    pub tables : w.2.db ≡ table.write (written dec table dirty clean row wrote (table.read d)) d
    pub stop :
        ((w.0 ≡ ok tt)
          × (rest ≡ [])
          × ((n : ℕ) → first_refused fs ≡ some n → dirty_count dirty es ≤ n))
        ⊎ ((w.0 ≡ err)
            × (first_refused fs ≡ some (dirty_count dirty wrote))
            × ((k : K) × (v : V) × (rs : Map K V) × (rest ≡ (k, v) ∷ rs) × (dirty v ≡ true)))

  abbrev new_rows : K → V → D → Map K R
  new_rows k v d = put dec k (row v (lookup dec k (table.read d))) (table.read d)

  clean-Stopped :
      (k : K) (v : V) (es : Map K V) (d : D) (fs : List Bool)
      (w : Result (Unit {0}) × Map K V × Tx D)
      → dirty v ≡ false
      → Stopped es d fs w
      → Stopped ((k, v) ∷ es) d fs (w.0, (k, v) ∷ w.1, w.2)
  unfolding written map_values
  clean-Stopped k v es d fs w e s = record {
    wrote = (k, v) ∷ s.wrote;
    rest = s.rest;
    all = ap (λ m. (k, v) ∷ m) s.all;
    memory = rw e (ap (λ m. (k, v) ∷ m) s.memory);
    tables = rw e s.tables;
    stop = elim s.stop [
      | inl (a, b, c) ↦ inl (a, b, λ n f. ground (arith, e, c n f))
      | inr (a, b, c) ↦ inr (a, b ∙ ground (arith, e), c)
    ];
  }

  -- A statement that the server answers moves the refused one by one.
  one_more :
      (k : K) (v : V) (es : Map K V) (before fs : List Bool)
      → ((before ≡ []) × (fs ≡ [])) ⊎ (before ≡ false ∷ fs)
      → dirty v ≡ true
      → ((n : ℕ) → first_refused fs ≡ some n → dirty_count dirty es ≤ n)
      → (n : ℕ) → first_refused before ≡ some n
      → dirty_count dirty ((k, v) ∷ es) ≤ n
  one_more k v es before fs (inl (b, f)) e c n h = absurd (ground (arith, b, h))
  one_more k v es before fs (inr b) e c n h = elim (Option-cases (first_refused fs)) [
    | inl q ↦ absurd (ground (arith, b, h, q))
    | inr (m, q) ↦ ground (arith, b, h, q, c m q, e)
  ]

  one_later :
      (k : K) (v : V) (es : Map K V) (before fs : List Bool)
      → ((before ≡ []) × (fs ≡ [])) ⊎ (before ≡ false ∷ fs)
      → dirty v ≡ true
      → first_refused fs ≡ some (dirty_count dirty es)
      → first_refused before ≡ some (dirty_count dirty ((k, v) ∷ es))
  one_later k v es before fs (inl (b, f)) e c = absurd (ground (arith, f, c))
  one_later k v es before fs (inr b) e c = ground (arith, b, e, c)

  wrote-Stopped :
      (k : K) (v : V) (es : Map K V) (d : D) (before fs : List Bool)
      (w : Result (Unit {0}) × Map K V × Tx D)
      → ((before ≡ []) × (fs ≡ [])) ⊎ (before ≡ false ∷ fs)
      → dirty v ≡ true
      → Stopped es (table.write (new_rows k v d) d) fs w
      → Stopped ((k, v) ∷ es) d before (w.0, (k, clean v) ∷ w.1, w.2)
  unfolding written map_values
  wrote-Stopped k v es d before fs w o e s = record {
    wrote = (k, v) ∷ s.wrote;
    rest = s.rest;
    all = ap (λ m. (k, v) ∷ m) s.all;
    memory = rw e (ap (λ m. (k, clean v) ∷ m) s.memory);
    tables = rw e (
        s.tables
        ∙ ap
            (λ m.
              table.write (written dec table dirty clean row s.wrote m)
                (table.write (new_rows k v d) d))
            (table.read-write (new_rows k v d) d)
        ∙ table.write-write _ _ d);
    stop = elim s.stop [
      | inl (a, b, c) ↦ inl (a, b, one_more k v es before fs o e c)
      | inr (a, b, c) ↦ inr (a, one_later k v s.wrote before fs o e b, c)
    ];
  }

  nothing_refused :
      (k : K) (v : V) (es : Map K V) (d : D)
      → dirty v ≡ true
      → (fs : List Bool)
      → Stopped ((k, v) ∷ es) d (true ∷ fs) (err, (k, v) ∷ es, record { db = d; faults = fs })
  unfolding written map_values
  nothing_refused k v es d e fs = record {
    wrote = [];
    rest = (k, v) ∷ es;
    all = refl;
    memory = refl;
    tables = sym (table.write-read d);
    stop = inr (refl, refl, (k, v, es, refl, e));
  }

  module _ (k : K) (v : V) (es : Map K V) (d : D) (fs : List Bool) where
    skip :
        (t : Tx D)
        → dirty v ≡ false
        → write_dirty dec table dirty clean row ((k, v) ∷ es) t
          ≡ let w = write_dirty dec table dirty clean row es t in (w.0, (k, v) ∷ w.1, w.2)
    unfolding write_dirty exec
    skip t e = ground (arith, e)

    refused :
        dirty v ≡ true
        → write_dirty dec table dirty clean row
            ((k, v) ∷ es)
            (record { db = d; faults = true ∷ fs })
          ≡ (err, (k, v) ∷ es, record { db = d; faults = fs })
    unfolding write_dirty exec
    refused e = ground (arith, e)

    accepted :
        (before : List Bool)
        → ((before ≡ []) × (fs ≡ [])) ⊎ (before ≡ false ∷ fs)
        → dirty v ≡ true
        → write_dirty dec table dirty clean row ((k, v) ∷ es) (record { db = d; faults = before })
          ≡ let w =
              write_dirty dec table dirty clean row es
                (record { db = table.write (new_rows k v d) d; faults = fs }) in
            (w.0, (k, clean v) ∷ w.1, w.2)
    unfolding write_dirty exec upsert
    accepted before (inl (b, f)) e = ground (arith, e, b, f)
    accepted before (inr b) e = ground (arith, e, b)

  -- When the server refuses the statement after n others and more than n entries are dirty, the
  -- loop fails at the dirty entry behind n dirty ones: the entries before it are written and clean,
  -- it and the others stay as they are. Otherwise the loop succeeds and writes and cleans all.
  pub write_dirty-Stopped :
      (es : Map K V) (d : D) (fs : List Bool)
      → Stopped es d fs (write_dirty dec table dirty clean row es (record { db = d; faults = fs }))
  unfolding write_dirty written map_values
  write_dirty-Stopped [] d fs = record {
    wrote = [];
    rest = [];
    all = refl;
    memory = refl;
    tables = sym (table.write-read d);
    stop = inl (refl, refl, λ n h. omega arith);
  }
  write_dirty-Stopped ((k, v) ∷ es) d fs = elim (Bool-cases (dirty v)) [
    | inr e ↦
        subst (Stopped ((k, v) ∷ es) d fs)
          (sym (skip k v es d [] (record { db = d; faults = fs }) e))
          (clean-Stopped k v es d fs _ e (write_dirty-Stopped es d fs))
    | inl e ↦ by_faults e (write_dirty-Stopped es (table.write (new_rows k v d) d)) fs
  ]
    where
      by_faults :
          dirty v ≡ true
          → ((fs : List Bool)
              → Stopped es (table.write (new_rows k v d) d) fs (
                  write_dirty dec table dirty clean row es
                    (record { db = table.write (new_rows k v d) d; faults = fs })))
          → (fs : List Bool)
          → Stopped
              ((k, v) ∷ es)
              d
              fs
              (write_dirty dec table dirty clean row ((k, v) ∷ es) (record { db = d; faults = fs }))
      by_faults e rest [] =
          subst (Stopped ((k, v) ∷ es) d []) (sym (accepted k v es d [] [] (inl (refl, refl)) e))
            (wrote-Stopped k v es d [] [] _ (inl (refl, refl)) e (rest []))
      by_faults e rest (true ∷ fs) =
          subst (Stopped ((k, v) ∷ es) d (true ∷ fs)) (sym (refused k v es d fs e))
            (nothing_refused k v es d e fs)
      by_faults e rest (false ∷ fs) =
          subst (Stopped ((k, v) ∷ es) d (false ∷ fs))
            (sym (accepted k v es d fs (false ∷ fs) (inr refl) e))
            (wrote-Stopped k v es d (false ∷ fs) fs _ (inr refl) e (rest fs))
