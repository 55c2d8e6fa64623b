-- ===== src/Web/Patch/Reader.antt =====
-- A reader of the event stream that ends lines the way the standard of server-sent events says: at a
-- newline, at a carriage return, or at both together.
use mesh_bug.Prelude.{
  ◌==◌, Bool, false, some, List, [], ◌∷◌, ◌++◌, Bytes, ◌≡◌, refl, sym, ap, ◌∙◌, subst, arith, ◌&&◌,
  if◌then◌else◌,
}
use mesh_bug.Decoder.Text.{split}
use mesh_bug.Decoder.Topic.RoundTrip.{Free, AllFree, join}
use mesh_bug.Decoder.Topic.Accepted.{split-Pieces}
use mesh_bug.Web.Patch.{
  patch, read_event, elements, join_lines, elements_key, patch_lines, unlines, patch-unlines,
  patch-read_event, field_line, selector_key, mode_key, event_line, Pieces-joined, Free-append,
  Free-is_free, AllFree-append, AllFree-field_line, AllFree-elements,
}

-- Every end of a line as a newline. `cr`: the byte before was a carriage return.
unfoldable pub newlines : (cr : Bool) → Bytes → Bytes
newlines cr [] = []
newlines cr (c ∷ s) =
    let rest = newlines (c == b'\r') s in
    if c == b'\r' then b'\n' ∷ rest else if cr && c == b'\n' then rest else c ∷ rest

unfoldable pub stream_lines : Bytes → List Bytes
unfolding newlines split
stream_lines s = split b'\n' (newlines false s)

newlines-append : (p s : Bytes) → Free b'\r' p → newlines false (p ++ s) ≡ p ++ newlines false s
unfolding newlines
newlines-append [] s h = refl
newlines-append (c ∷ p) s h = ground (arith, h.0, newlines-append p s h.1)

Free-unlines : (ls : List Bytes) → AllFree b'\r' ls → Free b'\r' (unlines ls)
Free-unlines [] h = tt
Free-unlines (l ∷ ls) h = Free-append b'\r' l (b'\n' ∷ unlines ls) h.0 (refl, Free-unlines ls h.1)

Free-front : (p q : Bytes) → Free b'\r' (p ++ q) → Free b'\r' p
Free-front [] q h = tt
Free-front (c ∷ p) q h = (h.0, Free-front p q h.1)

Free-back : (p q : Bytes) → Free b'\r' (p ++ q) → Free b'\r' q
Free-back [] q h = h
Free-back (c ∷ p) q h = Free-back p q h.1

AllFree-join : (l : Bytes) (ls : List Bytes) → Free b'\r' (join b'\n' l ls) → AllFree b'\r' (l ∷ ls)
AllFree-join l [] h = (h, tt)
AllFree-join l (m ∷ ms) h = (
  Free-front l (b'\n' ∷ join b'\n' m ms) h,
  AllFree-join m ms (Free-back l (b'\n' ∷ join b'\n' m ms) h).1,
)

AllFree-joined : (ls : List Bytes) → Free b'\r' (join_lines ls) → AllFree b'\r' ls
AllFree-joined [] h = tt
AllFree-joined (l ∷ ls) h = AllFree-join l ls h

Free-patch :
    (selector mode html : Bytes)
    → Free b'\r' selector
    → Free b'\r' mode
    → Free b'\r' html
    → Free b'\r' (patch selector mode html)
Free-patch selector mode html hs hm hh =
    let ls = split b'\n' html in
    let (joined, _) = Pieces-joined html ls (split-Pieces b'\n' html) in
    let lines : AllFree b'\r' ls = AllFree-joined ls (subst (Free b'\r') (sym joined) hh) in
    subst (Free b'\r') (sym (patch-unlines selector mode html)) (
      Free-unlines (patch_lines selector mode ls ++ [] ∷ []) (
        AllFree-append b'\r' (patch_lines selector mode ls) ([] ∷ [])
          (
            Free-is_free b'\r' event_line refl,
            AllFree-append b'\r' (field_line selector_key selector) _
                (AllFree-field_line b'\r' selector_key selector
                  (Free-is_free b'\r' selector_key refl) hs)
                (AllFree-append b'\r' (field_line mode_key mode) _
                  (AllFree-field_line b'\r' mode_key mode (Free-is_free b'\r' mode_key refl) hm)
                  (AllFree-elements b'\r' (Free-is_free b'\r' elements_key refl) ls lines)),
          )
          (tt, tt)))

-- When the selector and the mode have no newline and none of the selector, the mode and the fragment
-- has a carriage return, a reader of the stream takes what `Patch` writes as one event, reads on
-- behind it, and gets the fragment back from the element lines.
pub patch-stream_lines :
    (selector mode html rest : Bytes)
    → Free b'\n' selector
    → Free b'\n' mode
    → Free b'\r' selector
    → Free b'\r' mode
    → Free b'\r' html
    → (e : List Bytes) × (read_event (stream_lines (patch selector mode html ++ rest))
        ≡ some (e, stream_lines rest))
      × (join_lines (elements e) ≡ html)
unfolding stream_lines
patch-stream_lines selector mode html rest ns nm hs hm hh =
    let (e, r, j) = patch-read_event selector mode html (newlines false rest) ns nm in
    (
      e,
      ap (λ s. read_event (split b'\n' s))
            (newlines-append (patch selector mode html) rest
              (Free-patch selector mode html hs hm hh))
          ∙ r,
      j,
    )
