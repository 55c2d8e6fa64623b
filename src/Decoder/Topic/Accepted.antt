-- ===== src/Decoder/Topic/Accepted.antt =====
-- What a topic that is read looks like.
use mesh_bug.Prelude.{
  ℕ, ◌==◌, Bool, true, false, some, List, [], ◌∷◌, Bytes, length, ◌≡◌, refl, sym, subst, ap, arith,
  Bool-cases, inl, inr,
}
use mesh_bug.Decoder.Text.{trim_prefix, split, onto, hex_decode}
use mesh_bug.Decoder.Hex.{IsBytes, hex_decode-IsBytes}
use mesh_bug.Decoder.Topic.{TopicParts, last, topic_of, topic_parts, parse_topic_hash}
use mesh_bug.Decoder.Topic.RoundTrip.{Free, AllFree, join}

-- The pieces of a text, put together again.
unfoldable pub Pieces : ℕ → Bytes → List Bytes → Type 0
Pieces sep s [] = ⊥
Pieces sep s (p ∷ ps) = (s ≡ join sep p ps) × Free sep p × AllFree sep ps

onto-Pieces :
    (sep c : ℕ) (s : Bytes) (ps : List Bytes)
    → (c == sep) ≡ false
    → Pieces sep s ps
    → Pieces sep (c ∷ s) (onto c ps)
unfolding Pieces
onto-Pieces sep c s [] h k = absurd k
onto-Pieces sep c s (p ∷ []) h (e, f, g) = (ap (c ∷◌) e, (h, f), g)
onto-Pieces sep c s (p ∷ q ∷ ps) h (e, f, g) = (ap (c ∷◌) e, (h, f), g)

cut-Pieces :
    (sep c : ℕ) (s : Bytes) (ps : List Bytes)
    → (c == sep) ≡ true
    → Pieces sep s ps
    → Pieces sep (c ∷ s) ([] ∷ ps)
unfolding Pieces
cut-Pieces sep c s [] h k = absurd k
cut-Pieces sep c s (p ∷ ps) h (e, f, g) = (ground (arith, h, e), tt, (f, g))

pub split-Pieces : (sep : ℕ) (s : Bytes) → Pieces sep s (split sep s)
unfolding Pieces split
split-Pieces sep [] = (refl, tt, tt)
split-Pieces sep (c ∷ s) = elim (Bool-cases (c == sep)) [
  | inl h ↦
      subst
        (λ b.
          Pieces sep (c ∷ s) (elim b [ true ↦ [] ∷ split sep s | false ↦ onto c (split sep s) ]))
        (sym h) (cut-Pieces sep c s (split sep s) h (split-Pieces sep s))
  | inr h ↦
      subst
        (λ b.
          Pieces sep (c ∷ s) (elim b [ true ↦ [] ∷ split sep s | false ↦ onto c (split sep s) ]))
        (sym h) (onto-Pieces sep c s (split sep s) h (split-Pieces sep s))
]

last-Free :
    (sep : ℕ) (p : Bytes) (ps : List Bytes) → Free sep p → AllFree sep ps → Free sep (last p ps)
last-Free sep p [] h hs = h
last-Free sep p (q ∷ ps) h hs = last-Free sep q ps hs.0 hs.1

-- How a topic without its prefix was read.
pub record Accepted (rest : Bytes) (t : TopicParts) : Type 0 where
  pub hash : Bytes
  pub part : Bytes
  pub parts : List Bytes
  pub joined : rest ≡ join b'/' t.region (hash ∷ part ∷ parts)
  pub decoded : hex_decode hash ≡ (t.id, true)
  pub is_last : t.kind ≡ last part parts
  pub id_length : length t.id ≡ 32
  pub id_bytes : IsBytes t.id
  pub region_free : Free b'/' t.region
  pub kind_free : Free b'/' t.kind

accepted_id :
    (r : Bytes × Bool) (region kind : Bytes) (t : TopicParts)
    → topic_of r region kind ≡ some t
    → (r ≡ (t.id, true)) × (length t.id ≡ 32) × (region ≡ t.region) × (kind ≡ t.kind)
accepted_id (id, fine) region kind t e = (ground arith, ground arith, ground arith, ground arith)

read-Accepted :
    (rest : Bytes) (ps : List Bytes) (t : TopicParts)
    → Pieces b'/' rest ps
    → topic_parts ps ≡ some t
    → Accepted rest t
unfolding Pieces
read-Accepted rest [] t k e = absurd k
read-Accepted rest (r ∷ []) t k e = cc
read-Accepted rest (r ∷ h ∷ []) t k e = cc
read-Accepted rest (r ∷ h ∷ p ∷ ps) t (j, f, g) e =
    let (d, n, er, ek) = accepted_id (hex_decode h) r (last p ps) t e in
    record {
      hash = h;
      part = p;
      parts = ps;
      joined = subst (λ x. rest ≡ join b'/' x (h ∷ p ∷ ps)) er j;
      decoded = d;
      is_last = sym ek;
      id_length = n;
      id_bytes = subst (λ r. IsBytes r.0) d (hex_decode-IsBytes h);
      region_free = subst (Free b'/') er f;
      kind_free = subst (Free b'/') ek (last-Free b'/' p ps g.1.0 g.1.1);
    }

-- A topic is read only if, after its prefix, it is a region, a hexadecimal text of 32 bytes, and at
-- least one more segment, with `/` between them; the last segment is the kind.
pub parse_topic_hash-Accepted :
    (prefix topic : Bytes) (t : TopicParts)
    → parse_topic_hash prefix topic ≡ some t
    → Accepted (trim_prefix prefix topic) t
unfolding parse_topic_hash
parse_topic_hash-Accepted prefix topic t e =
    read-Accepted (trim_prefix prefix topic) (split b'/' (trim_prefix prefix topic)) t
      (split-Pieces b'/' _) e
