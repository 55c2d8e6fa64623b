-- ===== src/Web/Patch.antt =====
-- The events that the server writes: `Patch` of internal/web/sse_writer.go, and how a reader of the
-- event stream takes them.
pub mod Reader
use mesh_bug.Prelude.{
  ℕ, ◌==◌, Bool, true, false, Option, none, some, List, [], ◌∷◌, ◌++◌, Bytes, map, text, ◌≡◌, ◌≢◌,
  refl, sym, ap, ◌∙◌, arith,
}
use mathlib.Core.List.{append_assoc}
use mesh_bug.Decoder.Text.{split, strip}
use mesh_bug.Decoder.Topic.RoundTrip.{Free, AllFree, join, split-segment, strip-append}
use mesh_bug.Decoder.Topic.Accepted.{Pieces, split-Pieces}

abbrev pub event_line : Bytes
event_line = text "event: datastar-patch-elements"

abbrev pub selector_key : Bytes
selector_key = text "data: selector "

abbrev pub mode_key : Bytes
mode_key = text "data: mode "

abbrev pub elements_key : Bytes
elements_key = text "data: elements "

-- a line that is left out when its value is empty
abbrev field : Bytes → Bytes → Bytes
field key [] = []
field key (c ∷ s) = key ++ (c ∷ s) ++ b'\n' ∷ []

abbrev element_lines : List Bytes → Bytes
element_lines [] = []
element_lines (l ∷ ls) = elements_key ++ l ++ b'\n' ∷ element_lines ls

-- What `Patch` writes.
unfoldable pub patch : Bytes → Bytes → Bytes → Bytes
unfolding split
patch selector mode html =
    event_line
    ++ b'\n'
      ∷ (field selector_key selector
          ++ (field mode_key mode ++ (element_lines (split b'\n' html) ++ b'\n' ∷ [])))

-- The lines of the next event, up to an empty line, and the lines after it.
unfoldable pub read_event : List Bytes → Option (List Bytes × List Bytes)
read_event [] = none
read_event ([] ∷ ls) = some ([], ls)
read_event ((c ∷ l) ∷ ls) = elim (read_event ls) [
  | none ↦ none
  | some (e, rest) ↦ some ((c ∷ l) ∷ e, rest)
]

-- The values of the element lines.
unfoldable pub elements : List Bytes → List Bytes
unfolding strip
elements [] = []
elements (l ∷ ls) = elim (strip elements_key l) [ none ↦ elements ls | some v ↦ v ∷ elements ls ]

abbrev pub field_line : Bytes → Bytes → List Bytes
field_line key [] = []
field_line key (c ∷ s) = (key ++ c ∷ s) ∷ []

pub Free-append : (sep : ℕ) (p q : Bytes) → Free sep p → Free sep q → Free sep (p ++ q)
Free-append sep [] q h k = k
Free-append sep (c ∷ p) q h k = (h.0, Free-append sep p q h.1 k)

abbrev pub unlines : List Bytes → Bytes
unlines [] = []
unlines (l ∷ ls) = l ++ b'\n' ∷ unlines ls

abbrev pub patch_lines : Bytes → Bytes → List Bytes → List Bytes
patch_lines selector mode ls =
    event_line
    ∷ (field_line selector_key selector ++ (field_line mode_key mode ++ map (elements_key ++◌) ls))

unlines-append : (xs ys : List Bytes) → unlines (xs ++ ys) ≡ unlines xs ++ unlines ys
unlines-append [] ys = refl
unlines-append (x ∷ xs) ys =
    ap (λ s. x ++ b'\n' ∷ s) (unlines-append xs ys)
    ∙ sym (append_assoc x (b'\n' ∷ unlines xs) (unlines ys))

unlines-field_line : (key v : Bytes) → unlines (field_line key v) ≡ field key v
unlines-field_line key [] = refl
unlines-field_line key (c ∷ s) = refl

unlines-elements : (ls : List Bytes) → unlines (map (elements_key ++◌) ls) ≡ element_lines ls
unlines-elements [] = refl
unlines-elements (l ∷ ls) = ap (λ s. elements_key ++ l ++ b'\n' ∷ s) (unlines-elements ls)

pub patch-unlines :
    (selector mode html : Bytes)
    → patch selector mode html ≡ unlines (patch_lines selector mode (split b'\n' html) ++ [] ∷ [])
unfolding patch
patch-unlines selector mode html =
    let ls = split b'\n' html in
    let k = map (elements_key ++◌) ls in
    let a = field_line selector_key selector in
    let b = field_line mode_key mode in
    let inner : unlines (b ++ k) ≡ field mode_key mode ++ element_lines ls =
      unlines-append b k
      ∙ ap (λ s. s ++ unlines k) (unlines-field_line mode_key mode)
      ∙ ap (field mode_key mode ++◌) (unlines-elements ls) in
    let all : unlines (a ++ (b ++ k))
        ≡ field selector_key selector ++ (field mode_key mode ++ element_lines ls) =
      unlines-append a (b ++ k)
      ∙ ap (λ s. s ++ unlines (b ++ k)) (unlines-field_line selector_key selector)
      ∙ ap (field selector_key selector ++◌) inner in
    ap (λ s. event_line ++ b'\n' ∷ s)
      (sym (
        unlines-append (a ++ (b ++ k)) ([] ∷ [])
        ∙ ap (λ s. s ++ b'\n' ∷ []) all
        ∙ append_assoc (field selector_key selector) (field mode_key mode ++ element_lines ls)
            (b'\n' ∷ [])
        ∙ ap (field selector_key selector ++◌)
            (append_assoc (field mode_key mode) (element_lines ls) (b'\n' ∷ []))))

split-unlines :
    (ls : List Bytes) (rest : Bytes)
    → AllFree b'\n' ls
    → split b'\n' (unlines ls ++ rest) ≡ ls ++ split b'\n' rest
split-unlines [] rest h = refl
split-unlines (l ∷ ls) rest h =
    ap (split b'\n') (append_assoc l (b'\n' ∷ unlines ls) rest)
    ∙ split-segment b'\n' l (unlines ls ++ rest) h.0
    ∙ ap (l ∷◌) (split-unlines ls rest h.1)

-- No line is empty.
abbrev Full : List Bytes → Type 0
Full [] = Unit
Full (l ∷ ls) = (l ≢ []) × Full ls

read_event-Full : (ls rest : List Bytes) → Full ls → read_event (ls ++ [] ∷ rest) ≡ some (ls, rest)
unfolding read_event
read_event-Full [] rest h = refl
read_event-Full ([] ∷ ls) rest h = absurd (h.0 refl)
read_event-Full ((c ∷ l) ∷ ls) rest h = ground (arith, read_event-Full ls rest h.1)

elements-map : (ls : List Bytes) → elements (map (elements_key ++◌) ls) ≡ ls
unfolding elements
elements-map [] = refl
elements-map (l ∷ ls) = ground (arith, strip-append elements_key l, elements-map ls)

elements-patch_lines :
    (selector mode : Bytes) (ls : List Bytes) → elements (patch_lines selector mode ls) ≡ ls
unfolding elements strip
elements-patch_lines [] [] ls = elements-map ls
elements-patch_lines [] (c ∷ s) ls = elements-map ls
elements-patch_lines (c ∷ s) [] ls = elements-map ls
elements-patch_lines (c ∷ s) (d ∷ t) ls = elements-map ls

abbrev is_free : ℕ → Bytes → Bool
is_free sep [] = true
is_free sep (c ∷ s) = elim (c == sep) [ true ↦ false | false ↦ is_free sep s ]

pub Free-is_free : (sep : ℕ) (s : Bytes) → is_free sep s ≡ true → Free sep s
Free-is_free sep [] h = tt
Free-is_free sep (c ∷ s) h = ground (arith, h, Free-is_free sep s)

pub AllFree-append :
    (sep : ℕ) (ps qs : List Bytes) → AllFree sep ps → AllFree sep qs → AllFree sep (ps ++ qs)
AllFree-append sep [] qs h k = k
AllFree-append sep (p ∷ ps) qs h k = (h.0, AllFree-append sep ps qs h.1 k)

pub AllFree-field_line :
    (sep : ℕ) (key v : Bytes) → Free sep key → Free sep v → AllFree sep (field_line key v)
AllFree-field_line sep key [] h k = tt
AllFree-field_line sep key (c ∷ s) h k = (Free-append sep key (c ∷ s) h k, tt)

pub AllFree-elements :
    (sep : ℕ)
    → Free sep elements_key
    → (ls : List Bytes) → AllFree sep ls
    → AllFree sep (map (elements_key ++◌) ls)
AllFree-elements sep h [] k = tt
AllFree-elements sep h (l ∷ ls) k =
    (Free-append sep elements_key l h k.0, AllFree-elements sep h ls k.1)

Full-append : (ps qs : List Bytes) → Full ps → Full qs → Full (ps ++ qs)
Full-append [] qs h k = k
Full-append (p ∷ ps) qs h k = (h.0, Full-append ps qs h.1 k)

Full-selector : (v : Bytes) → Full (field_line selector_key v)
Full-selector [] = tt
Full-selector (c ∷ s) = ((λ e. cc), tt)

Full-mode : (v : Bytes) → Full (field_line mode_key v)
Full-mode [] = tt
Full-mode (c ∷ s) = ((λ e. cc), tt)

Full-elements : (ls : List Bytes) → Full (map (elements_key ++◌) ls)
Full-elements [] = tt
Full-elements (l ∷ ls) = ((λ e. cc), Full-elements ls)

-- strings.Join(lines, "\n")
abbrev pub join_lines : List Bytes → Bytes
join_lines [] = []
join_lines (l ∷ ls) = join b'\n' l ls

pub Pieces-joined :
    (s : Bytes) (ps : List Bytes) → Pieces b'\n' s ps → (join_lines ps ≡ s) × AllFree b'\n' ps
unfolding Pieces
Pieces-joined s [] k = absurd k
Pieces-joined s (p ∷ ps) (e, f, g) = (sym e, (f, g))

-- When the selector and the mode have no newline, what is cut at newlines alone reads back.
pub patch-read_event :
    (selector mode html rest : Bytes)
    → Free b'\n' selector
    → Free b'\n' mode
    → (e : List Bytes) × (read_event (split b'\n' (patch selector mode html ++ rest))
        ≡ some (e, split b'\n' rest))
      × (join_lines (elements e) ≡ html)
patch-read_event selector mode html rest hs hm =
    let ls = split b'\n' html in
    let (joined, free) = Pieces-joined html ls (split-Pieces b'\n' html) in
    let e = patch_lines selector mode ls in
    let e_free : AllFree b'\n' e = (
      Free-is_free b'\n' event_line refl,
      AllFree-append b'\n' (field_line selector_key selector) _
          (AllFree-field_line b'\n' selector_key selector (Free-is_free b'\n' selector_key refl) hs)
          (AllFree-append b'\n' (field_line mode_key mode) _
            (AllFree-field_line b'\n' mode_key mode (Free-is_free b'\n' mode_key refl) hm)
            (AllFree-elements b'\n' (Free-is_free b'\n' elements_key refl) ls free)),
    ) in
    let full : Full e = (
      (λ e. cc),
      Full-append (field_line selector_key selector) _ (Full-selector selector)
          (Full-append (field_line mode_key mode) _ (Full-mode mode) (Full-elements ls)),
    ) in
    (
      e,
      ap read_event (
            ap (λ s. split b'\n' (s ++ rest)) (patch-unlines selector mode html)
            ∙ split-unlines (e ++ [] ∷ []) rest (AllFree-append b'\n' e ([] ∷ []) e_free (tt, tt))
            ∙ append_assoc e ([] ∷ []) (split b'\n' rest))
          ∙ read_event-Full e (split b'\n' rest) full,
      ap join_lines (elements-patch_lines selector mode ls) ∙ joined,
    )
