-- ===== src/Partitions.antt =====
-- The monthly partitions: internal/store/partitions.go, with what it uses of Go's calendar. A
-- partition is named by its table, year and month. A statement is answered, fails, or, for the
-- creation, meets a table of that name.
pub mod Covered
use mesh_bug.Prelude.{
  ℕ, suc, ◌+◌, ◌-◌, ◌%◌, ◌==◌, leb, Bool, true, false, not, ◌&&◌, ◌||◌, List, [], ◌∷◌, ◌++◌, Bytes,
  if◌then◌else◌, bytes_discrete, ℕ_discrete, ◌≡◌, refl,
}
use mesh_bug.Prelude.Sets.{contains, add}
use mesh_bug.Store.{Result, ok, err}

pub record Date : Type 0 where
  pub year : ℕ
  pub month : ℕ
  pub day : ℕ

abbrev is_leap : ℕ → Bool
is_leap y = (y % 4 == 0 && not (y % 100 == 0)) || y % 400 == 0

unfoldable pub days_in : ℕ → ℕ → ℕ
days_in y m =
    if m == 2
    then (if is_leap y then 29 else 28)
    else if m == 4 || m == 6 || m == 9 || m == 11
    then 30
    else 31

-- the month after
abbrev pub following : Date → Date
following d =
    if d.month == 12
    then record d { year = d.year + 1; month = 1 }
    else record d { month = d.month + 1 }

-- t.AddDate(0, 1, 0): a day that the next month does not have runs over into the month after it
unfoldable pub add_month : Date → Date
unfolding days_in
add_month d =
    let f = following d in
    let n = days_in f.year f.month in
    if leb d.day n then f else record (following f) { day = d.day - n }

-- time.Date(t.Year(), t.Month(), 1, …)
abbrev pub month_start : Date → Date
month_start d = record d { day = 1 }

-- FOR VALUES FROM (start) TO (end)
pub record Partition : Type 0 where
  pub table : Bytes
  pub start : Date
  pub end : Date

abbrev pub partition_of : Bytes → Date → Partition
partition_of table month = record {
  table = table;
  start = month_start month;
  end = add_month (month_start month);
}

-- table_YYYY_MM
abbrev pub Name : Type 0
Name = Bytes × ℕ × ℕ

abbrev pub name_of : Bytes → Date → Name
name_of table month = (table, month.year, month.month)

unfoldable pub name_discrete : Discrete Name
unfolding ℕ_discrete bytes_discrete
name_discrete = hlevel (bytes_discrete, ℕ_discrete)

pub data Answer : Type 0 where
  fine : Answer
  duplicate : Answer
  failed : Answer

-- The answers to the three statements of one call.
pub record Answers : Type 0 where
  pub check : Answer
  pub create : Answer
  pub record_it : Answer

abbrev pub all_fine : Answers
all_fine = record { check = fine; create = fine; record_it = fine }

abbrev pub fine_always : Name → Answers
fine_always n = all_fine

-- `recorded` is _partition_state; `attached` are the partitions of the tables, newest first.
pub record Catalog : Type 0 where
  pub recorded : List Name
  pub attached : List Partition

abbrev pub created : Answer → Bytes → Date → Catalog → Result Catalog
created fine table month c = ok (record c { attached = partition_of table month ∷ c.attached })
created duplicate table month c = ok c
created failed table month c = err

abbrev pub noted : Answer → Bytes → Date → Result Catalog → Result Catalog
noted a table month err = err
noted failed table month (ok c) = err
noted _ table month (ok c) =
    ok (record c { recorded = add name_discrete (name_of table month) c.recorded })

abbrev pub checked : Answers → Bytes → Date → Catalog → Bool → Result Catalog
checked a table month c true = ok c
checked a table month c false = noted a.record_it table month (created a.create table month c)

unfoldable pub ensure_partition : Answers → Bytes → Date → Catalog → Result Catalog
unfolding name_discrete
ensure_partition a table month c = elim a.check [
  | failed ↦ err
  | _ ↦ checked a table month c (contains name_discrete (name_of table month) c.recorded)
]

-- the inner loop; `ask` answers the statements of each call
unfoldable pub ensure_tables : (Name → Answers) → List Bytes → Date → Catalog → Result Catalog
unfolding ensure_partition
ensure_tables ask [] month c = ok c
ensure_tables ask (t ∷ ts) month c = elim (ensure_partition (ask (name_of t month)) t month c) [
  | err ↦ err
  | ok c' ↦ ensure_tables ask ts month c'
]

unfoldable pub ensure_partitions : (Name → Answers) → Date → List Bytes → Catalog → Result Catalog
unfolding ensure_tables add_month
ensure_partitions ask now tables c = elim (ensure_tables ask tables now c) [
  | err ↦ err
  | ok c' ↦ ensure_tables ask tables (add_month now) c'
]
