-- ===== src/Tests/Pages.antt =====
-- Concrete months, events of the stream and pages.
use mesh_bug.Prelude.{
  ◌+◌, ◌≤◌, ◌<◌, ◌≡◌, ◌↔◌, refl, true, false, some, List, [], ◌∷◌, ◌++◌, Bytes, bytes_discrete,
  text, arith,
}
use mesh_bug.Prelude.Sets.{contains}
use mesh_bug.Store.{ok}
use mesh_bug.Partitions.{
  Date, Catalog, days_in, add_month, partition_of, fine_always, ensure_partitions,
}
use mesh_bug.Partitions.Covered.{
  Valid, second-partition, Covers, Covering, ensure_partitions-Covers,
}
use mesh_bug.Decoder.Text.{digits}
use mesh_bug.Migrations.{version, passed, check_one}
use mesh_bug.Migrations.Latest.{UpToDate, check_one-passed}
use mesh_bug.Web.Patch.{patch, read_event, elements, join_lines}
use mesh_bug.Web.Patch.Reader.{stream_lines, patch-stream_lines}
use mesh_bug.Web.Paging.{
  NodesPage, nodes_range_start, nodes_range_end, nodes_total_pages, nodes_range-bounds,
}

abbrev last_of_january : Date
last_of_january = record { year = 2026; month = 1; day = 31 }

abbrev first_of_december : Date
first_of_december = record { year = 2026; month = 12; day = 1 }

last_of_january-Valid : Valid last_of_january
unfolding days_in
last_of_january-Valid = record {
  month_first = omega arith;
  month_last = omega arith;
  day_first = omega arith;
  day_last = omega arith;
}

second-partition_example :
    ((partition_of (text "raw_events") last_of_january).end
      ≡ (partition_of (text "raw_events") (add_month last_of_january)).start)
    ↔ (31 ≤ days_in 2026 2)
second-partition_example =
    second-partition last_of_january (text "raw_events") last_of_january-Valid

-- The partition made ahead on 31 January is that of March.
february_skipped :
    (partition_of (text "raw_events") (add_month last_of_january)).start
    ≡ record { year = 2026; month = 3; day = 1 }
unfolding add_month
february_skipped = refl

abbrev no_partitions : Catalog
no_partitions = record { recorded = []; attached = [] }

ensure_partitions-Covers_example :
    (c : Catalog) × (ensure_partitions fine_always first_of_december
        (text "raw_events" ∷ [])
        no_partitions
      ≡ ok c)
    × Covering c
    × ((t : Bytes)
        → contains bytes_discrete t (text "raw_events" ∷ []) ≡ true
        → Covers t first_of_december c × Covers t (record { year = 2027; month = 1; day = 1 }) c)
unfolding days_in contains
ensure_partitions-Covers_example =
    ensure_partitions-Covers first_of_december (text "raw_events" ∷ []) no_partitions
      (λ t d h. absurd (ground (arith, h))) (omega arith)

abbrev fragment : Bytes
fragment = text "<div>\n\n</div>\n"

patch-stream_lines_example :
    (e : List Bytes) × (read_event
        (stream_lines (patch (text "#feed") [] fragment ++ text ": ping\r\n\r\n"))
      ≡ some (e, stream_lines (text ": ping\r\n\r\n")))
    × (join_lines (elements e) ≡ fragment)
patch-stream_lines_example =
    patch-stream_lines (text "#feed") [] fragment (text ": ping\r\n\r\n")
      (refl, (refl, (refl, (refl, (refl, tt))))) tt (refl, (refl, (refl, (refl, (refl, tt))))) tt
      (ground arith)

-- Two carriage returns in a fragment end the event.
patch_cut :
    read_event (stream_lines (patch (text "#feed") [] (text "a\r\rb")))
    ≡ some (
      text "event: datastar-patch-elements"
          ∷ text "data: selector #feed"
          ∷ text "data: elements a"
          ∷ [],
      text "b" ∷ [] ∷ [] ∷ [],
    )
unfolding read_event stream_lines patch
patch_cut = refl

abbrev third_page : NodesPage
third_page = record { page = 3; size = 50; total = 120 }

nodes_range-bounds_example :
    (1 ≤ nodes_range_start third_page)
    × (nodes_range_start third_page ≤ nodes_range_end third_page)
    × (nodes_range_end third_page ≤ 120)
    × (nodes_range_end third_page < nodes_range_start third_page + 50)
    × (3 ≡ nodes_total_pages third_page → nodes_range_end third_page ≡ 120)
    × (3 < nodes_total_pages third_page
        → nodes_range_end third_page + 1 ≡ nodes_range_start (record third_page { page = 4 }))
unfolding nodes_total_pages
nodes_range-bounds_example =
    nodes_range-bounds third_page (omega arith) (omega arith) (omega arith) (omega arith)

-- A page past the last starts behind the end of the list.
past_the_end :
    (nodes_range_start (record third_page { page = 9 }) ≡ 401)
    × (nodes_range_end (record third_page { page = 9 }) ≡ 120)
unfolding nodes_range_start nodes_range_end
past_the_end = (refl, refl)

abbrev files : List Bytes
files =
    text "000001_init.up.sql"
    ∷ text "000001_init.down.sql"
    ∷ text "000003_nodes.up.sql"
    ∷ text "000002_nodes.up.sql"
    ∷ []

check_one-passed_example :
    (check_one files (version 3 false) ≡ passed) ↔ UpToDate files (version 3 false)
check_one-passed_example = check_one-passed files (version 3 false)

files_pass : check_one files (version 3 false) ≡ passed
unfolding check_one digits
files_pass = refl
