-- ===== src/Migrations.antt =====
-- The versions of the migrations: latestEmbeddedVersion and checkOne of internal/store/migrations.go.
-- The files of a schema's directory are a list of names; the state of the database is what
-- golang-migrate reads, none before the first migration.
pub mod Latest
use mathlib.Core.List.{reverse}
use mesh_bug.Prelude.{
  ℕ, ◌^◌, ltb, ◌==◌, Bool, true, false, Option, none, some, List, [], ◌∷◌, Bytes, if◌then◌else◌,
  text, ◌≡◌, refl,
}
use mesh_bug.Decoder.Text.{strip, split, digits, unsigned}

-- strings.HasSuffix
unfoldable pub has_suffix : Bytes → Bytes → Bool
unfolding strip reverse
has_suffix s suffix = elim (strip (reverse suffix) (reverse s)) [ none ↦ false | some _ ↦ true ]

-- strconv.ParseUint(s, 10, 64)
unfoldable pub parse_uint : Bytes → Option ℕ
unfolding digits
parse_uint s = elim (unsigned s) [ none ↦ none | some n ↦ if ltb n (2 ^ 64) then some n else none ]

-- the text before the first `_`, if there is one and the text is not empty
abbrev before_underscore : List Bytes → Option Bytes
before_underscore ((c ∷ p) ∷ q ∷ ps) = some (c ∷ p)
before_underscore _ = none

abbrev number_of : Option Bytes → Option ℕ
number_of none = none
number_of (some p) = parse_uint p

-- The version in a file name `NNNNNN_name.up.sql`.
unfoldable pub version_of : Bytes → Option ℕ
unfolding has_suffix split parse_uint
version_of name = elim (has_suffix name (text ".up.sql")) [
  | false ↦ none
  | true ↦ number_of (before_underscore (split b'_' name))
]

abbrev pub larger : Option ℕ → ℕ → ℕ
larger none m = m
larger (some v) m = if ltb m v then v else m

-- the loop over the entries
unfoldable pub greatest : List Bytes → ℕ → ℕ
unfolding version_of
greatest [] m = m
greatest (e ∷ es) m = greatest es (larger (version_of e) m)

unfoldable pub latest_embedded_version : List Bytes → Option ℕ
unfolding greatest
latest_embedded_version es = let m = greatest es 0 in if m == 0 then none else some m

-- What m.Version returns, without an error.
pub data Applied : Type 0 where
  nothing : Applied
  version : ℕ → (dirty : Bool) → Applied

pub data Check : Type 0 where
  passed : Check
  no_files : Check
  is_dirty : ℕ → Check
  differs : (have want : ℕ) → Check

abbrev pub compared : ℕ → Applied → Check
compared want nothing = if 0 == want then passed else differs 0 want
compared want (version have true) = is_dirty have
compared want (version have false) = if have == want then passed else differs have want

unfoldable pub check_one : List Bytes → Applied → Check
unfolding latest_embedded_version
check_one es a = elim (latest_embedded_version es) [ none ↦ no_files | some want ↦ compared want a ]

version_of_runs : version_of (text "000003_nodes_advert_received_at.up.sql") ≡ some 3
unfolding version_of
version_of_runs = refl

version_of_down : version_of (text "000003_nodes_advert_received_at.down.sql") ≡ none
unfolding version_of
version_of_down = refl
