-- ===== src/Partitions/Covered.antt =====
-- Which months have a partition, and where it begins and ends.
use mesh_bug.Prelude.{
  ℕ, ◌+◌, ◌-◌, ◌<◌, ◌≤◌, ◌≡◌, ◌≢◌, ◌↔◌, refl, sym, ap, ◌∙◌, leb, ◌==◌, Bool, true, false, List, [],
  ◌∷◌, Bytes, if◌then◌else◌, arith, Bool-cases, inl, inr, bytes_discrete, subst,
}
use mesh_bug.Prelude.Sets.{contains, add, contains-add}
use mesh_bug.Store.{Result, ok, err}
use mesh_bug.Partitions.{
  Date, days_in, following, add_month, month_start, Partition, partition_of, name_of, name_discrete,
  all_fine, fine_always, Catalog, checked, ensure_partition, ensure_tables, ensure_partitions,
}

-- A day of the calendar.
pub record Valid (d : Date) : Type 0 where
  pub month_first : 1 ≤ d.month
  pub month_last : d.month ≤ 12
  pub day_first : 1 ≤ d.day
  pub day_last : d.day ≤ days_in d.year d.month

days_in-le : (y m : ℕ) → (28 ≤ days_in y m) × (days_in y m ≤ 31)
unfolding days_in
days_in-le y m = ground arith

fits :
    (d : Date) → d.day ≤ days_in (following d).year (following d).month → add_month d ≡ following d
unfolding add_month
fits d l = elim (Bool-cases (leb d.day (days_in (following d).year (following d).month))) [
  | inl b ↦
      ap
        (λ b. if b then following d else record (following (following d)) {
          day = d.day - days_in (following d).year (following d).month;
        })
        b
  | inr b ↦ absurd (ground (arith, b, l))
]

overruns :
    (d : Date)
    → days_in (following d).year (following d).month < d.day
    → add_month d ≡ record (following (following d)) {
      day = d.day - days_in (following d).year (following d).month;
    }
unfolding add_month
overruns d l = elim (Bool-cases (leb d.day (days_in (following d).year (following d).month))) [
  | inl b ↦ absurd (ground (arith, b, l))
  | inr b ↦
      ap
        (λ b. if b then following d else record (following (following d)) {
          day = d.day - days_in (following d).year (following d).month;
        })
        b
]

months_differ : (d : Date) → (following d).month ≢ d.month
months_differ d e = ground (arith, e)

start-following : (d : Date) → add_month (month_start d) ≡ month_start (following d)
unfolding add_month
start-following d =
    let f = following (month_start d) in
    let first : 1 ≤ days_in f.year f.month = omega (arith, days_in-le f.year f.month) in
    fits (month_start d) first ∙ by_test (d.month == 12)
  where
    by_test :
        (b : Bool)
        → (if b
            then record (month_start d) { year = d.year + 1; month = 1 }
            else record (month_start d) { month = d.month + 1 })
          ≡ month_start (
              if b
              then record d { year = d.year + 1; month = 1 }
              else record d { month = d.month + 1 })
    by_test true = refl
    by_test false = refl

-- For a day of the calendar, the partition of its month ends where the partition that the code
-- makes for the month after starts exactly if the month after has that day.
pub second-partition :
    (now : Date) (table : Bytes)
    → Valid now
    → ((partition_of table now).end ≡ (partition_of table (add_month now)).start)
      ↔ (now.day ≤ days_in (following now).year (following now).month)
second-partition now table v =
    (has_day, λ l. start-following now ∙ ap month_start (sym (fits now l)))
  where
    n : ℕ
    n = days_in (following now).year (following now).month

    has_day : add_month (month_start now) ≡ month_start (add_month now) → now.day ≤ n
    has_day e = elim (Bool-cases (leb now.day n)) [
      | inl b ↦ ground (arith, b)
      | inr b ↦
          let same : (following now).month ≡ (following (following now)).month =
            ap (λ (d : Date). d.month)
              (sym (start-following now) ∙ e ∙ ap month_start (overruns now (ground (arith, b)))) in
          absurd (months_differ (following now) (sym same))
    ]

-- One of the attached partitions of the catalog.
pub data IsAttached (p : Partition) : List Partition → Type 0 where
  newest : {ps : List Partition} → IsAttached p (p ∷ ps)
  older : {q : Partition} {ps : List Partition} → IsAttached p ps → IsAttached p (q ∷ ps)

-- A partition of the table for exactly the month of the day.
abbrev pub Covers : Bytes → Date → Catalog → Type 0
Covers t d c =
    IsAttached
      (record { table = t; start = record d { day = 1 }; end = record (following d) { day = 1 } })
      c.attached

-- Every partition that is recorded is there.
abbrev pub Covering : Catalog → Type 0
Covering c =
    (t : Bytes) (d : Date) → contains name_discrete (name_of t d) c.recorded ≡ true → Covers t d c

-- `c'` has every partition of `c`.
abbrev More : Catalog → Catalog → Type 0
More c c' = (p : Partition) → IsAttached p c.attached → IsAttached p c'.attached

new-Covers :
    (t : Bytes) (d : Date) (ps : List Partition)
    → IsAttached
        (record { table = t; start = record d { day = 1 }; end = record (following d) { day = 1 } })
        (partition_of t d ∷ ps)
new-Covers t d ps =
    subst
      (λ (e : Date).
        IsAttached (record { table = t; start = month_start d; end = e }) (partition_of t d ∷ ps))
      (start-following d) newest

-- The month is what a partition depends on.
same_month :
    (t u : Bytes) (c d : Date) → name_of t c ≡ name_of u d → partition_of t c ≡ partition_of u d
same_month t u c d e =
    λ i. partition_of (e i).0 (record { year = (e i).1; month = (e i).2; day = 1 })

-- The catalog with one partition more.
abbrev grown : Bytes → Date → Catalog → Catalog
grown t month c = record {
  recorded = add name_discrete (name_of t month) c.recorded;
  attached = partition_of t month ∷ c.attached;
}

grown-Covering : (t : Bytes) (month : Date) (c : Catalog) → Covering c → Covering (grown t month c)
grown-Covering t month c k u d h = elim (name_discrete (name_of u d) (name_of t month)) [
  | yes e ↦
      subst (λ p. Covers u d (record c { attached = p ∷ c.attached })) (same_month u t d month e)
        (new-Covers u d c.attached)
  | no e ↦ older (
      k u d (
        ground
          (arith, h, contains-add name_discrete (name_of u d) (name_of t month) c.recorded, e)))
]

one_recorded :
    (t : Bytes) (month : Date) (c : Catalog)
    → Covering c
    → (c' : Catalog) × (ensure_partition all_fine t month c ≡ ok c')
      × Covering c'
      × More c c'
      × Covers t month c'
unfolding ensure_partition
one_recorded t month c k = elim (Bool-cases (contains name_discrete (name_of t month) c.recorded)) [
  | inl b ↦ (c, ap (checked all_fine t month c) b, k, (λ p h. h), k t month b)
  | inr b ↦ (
    grown t month c,
    ap (checked all_fine t month c) b,
    grown-Covering t month c k,
    (λ p h. older h),
    new-Covers t month c.attached,
  )
]

tables_recorded :
    (ts : List Bytes) (month : Date) (c : Catalog)
    → Covering c
    → (c' : Catalog) × (ensure_tables fine_always ts month c ≡ ok c')
      × Covering c'
      × More c c'
      × ((t : Bytes) → contains bytes_discrete t ts ≡ true → Covers t month c')
unfolding ensure_tables contains
tables_recorded [] month c k = (c, refl, k, (λ p h. h), λ t h. absurd (ground (arith, h)))
tables_recorded (t ∷ ts) month c k =
    let (c₁, e, k', more, has) = one_recorded t month c k in
    let (c₂, f, k'', more', all) = tables_recorded ts month c₁ k' in
    (
      c₂,
      ap
            (λ r. elim r as (λ _. Result Catalog) [
              | err ↦ err
              | ok c' ↦ ensure_tables fine_always ts month c'
            ])
            e
          ∙ f,
      k'',
      (λ p h. more' p (more p h)),
      λ u h. elim (bytes_discrete t u) [
        | yes p ↦ subst (λ u. Covers u month c₂) p (more' _ has)
        | no p ↦ all u (ground (arith, h, p))
      ],
    )

-- When every statement is answered, every partition that was recorded is there, and the next month
-- has the day of now, the call succeeds and each table has a partition from the first day of the
-- month of now to the first day of the next month, and one for the month after that; every
-- recorded partition is still there.
pub ensure_partitions-Covers :
    (now : Date) (ts : List Bytes) (c : Catalog)
    → Covering c
    → now.day ≤ days_in (following now).year (following now).month
    → (c' : Catalog) × (ensure_partitions fine_always now ts c ≡ ok c')
      × Covering c'
      × ((t : Bytes)
          → contains bytes_discrete t ts ≡ true
          → Covers t now c' × Covers t (following now) c')
unfolding ensure_partitions
ensure_partitions-Covers now ts c k l =
    let (c₁, e, k', more, has) = tables_recorded ts now c k in
    let (c₂, f, k'', more', has') = tables_recorded ts (add_month now) c₁ k' in
    (
      c₂,
      ap
            (λ r. elim r as (λ _. Result Catalog) [
              | err ↦ err
              | ok c' ↦ ensure_tables fine_always ts (add_month now) c'
            ])
            e
          ∙ f,
      k'',
      λ t h. (more' _ (has t h), subst (λ (d : Date). Covers t d c₂) (fits now l) (has' t h)),
    )
