-- ===== src/Decoder/Topic/RoundTrip.antt =====
-- A topic that an observer publishes under is read back, and what a topic that is read looks like.
use mesh_bug.Prelude.{
  ℕ, ◌==◌, false, some, List, [], ◌∷◌, ◌++◌, Bytes, length, ◌≡◌, refl, ap, ◌∙◌, arith,
}
use mesh_bug.Notify.{hex_encode}
use mesh_bug.Decoder.Text.{strip, trim_prefix, split}
use mesh_bug.Decoder.Hex.{IsBytes, hex_decode-hex_encode}
use mesh_bug.Decoder.Topic.{last, topic_parts, parse_topic_hash}

-- A segment: no separator in it.
abbrev pub Free : ℕ → Bytes → Type 0
Free sep [] = Unit
Free sep (c ∷ s) = ((c == sep) ≡ false) × Free sep s

abbrev pub AllFree : ℕ → List Bytes → Type 0
AllFree sep [] = Unit
AllFree sep (p ∷ ps) = Free sep p × AllFree sep ps

-- strings.Join
abbrev pub join : ℕ → Bytes → List Bytes → Bytes
join sep p [] = p
join sep p (q ∷ ps) = p ++ sep ∷ join sep q ps

split-Free : (sep : ℕ) (p : Bytes) → Free sep p → split sep p ≡ p ∷ []
unfolding split
split-Free sep [] h = refl
split-Free sep (c ∷ p) h = ground (arith, h.0, split-Free sep p h.1)

pub split-segment :
    (sep : ℕ) (p s : Bytes) → Free sep p → split sep (p ++ sep ∷ s) ≡ p ∷ split sep s
unfolding split
split-segment sep [] s h = ground arith
split-segment sep (c ∷ p) s h = ground (arith, h.0, split-segment sep p s h.1)

split-join :
    (sep : ℕ) (p : Bytes) (ps : List Bytes)
    → Free sep p
    → AllFree sep ps
    → split sep (join sep p ps) ≡ p ∷ ps
split-join sep p [] h hs = split-Free sep p h
split-join sep p (q ∷ ps) h hs =
    split-segment sep p (join sep q ps) h ∙ ap (p ∷◌) (split-join sep q ps hs.0 hs.1)

pub strip-append : (p s : Bytes) → strip p (p ++ s) ≡ some s
unfolding strip
strip-append [] s = refl
strip-append (c ∷ p) s = ground (arith, strip-append p s)

trim_prefix-append : (p s : Bytes) → trim_prefix p (p ++ s) ≡ s
unfolding trim_prefix
trim_prefix-append p s = ground (arith, strip-append p s)

Free-hex_encode : (bs : Bytes) → Free b'/' (hex_encode bs)
unfolding hex_encode
Free-hex_encode [] = tt
Free-hex_encode (b ∷ bs) = (ground arith, (ground arith, Free-hex_encode bs))

last-append : (p : Bytes) (ps : List Bytes) (q : Bytes) → last p (ps ++ q ∷ []) ≡ q
last-append p [] q = refl
last-append p (r ∷ ps) q = last-append r ps q

AllFree-append :
    (sep : ℕ) (ps : List Bytes) (q : Bytes)
    → AllFree sep ps
    → Free sep q
    → AllFree sep (ps ++ q ∷ [])
AllFree-append sep [] q h hq = (hq, tt)
AllFree-append sep (p ∷ ps) q h hq = (h.0, AllFree-append sep ps q h.1 hq)

parts_read :
    (region id kind : Bytes) (mids : List Bytes)
    → length id ≡ 32
    → IsBytes id
    → topic_parts (region ∷ hex_encode id ∷ (mids ++ kind ∷ []))
      ≡ some (record { id = id; region = region; kind = kind })
parts_read region id kind [] n b = ground (arith, hex_decode-hex_encode id b)
parts_read region id kind (m ∷ mids) n b =
    ground (arith, hex_decode-hex_encode id b, last-append m mids kind)

-- A topic made of a prefix, a region, the hexadecimal text of 32 bytes, any segments and a kind,
-- with `/` between them and in none of them, is read as that region, those bytes and that kind.
pub parse_topic_hash-join :
    (prefix region id kind : Bytes) (mids : List Bytes)
    → Free b'/' region
    → Free b'/' kind
    → AllFree b'/' mids
    → length id ≡ 32
    → IsBytes id
    → parse_topic_hash prefix (prefix ++ join b'/' region (hex_encode id ∷ (mids ++ kind ∷ [])))
      ≡ some (record { id = id; region = region; kind = kind })
unfolding parse_topic_hash
parse_topic_hash-join prefix region id kind mids hr hk hm n b =
    ap (λ s. topic_parts (split b'/' s)) (trim_prefix-append prefix _)
    ∙ ap topic_parts (
        split-join b'/' region (hex_encode id ∷ (mids ++ kind ∷ [])) hr
          (Free-hex_encode id, AllFree-append b'/' mids kind hm hk))
    ∙ parts_read region id kind mids n b
