-- ===== src/Web/Paging.antt =====
-- The paging of the list of nodes: nodesRangeStart, nodesRangeEnd and nodesTotalPages of
-- internal/web/templates/helpers.go.
use native.Mathlib.Nat.{le-div_iff_mul-le}
use mesh_bug.Prelude.{
  ℕ, zero, suc, ◌+◌, ◌-◌, ◌*◌, ◌/◌, ◌<◌, ◌≤◌, ◌≡◌, ◌↔◌, sym, subst, ◌∙◌, ltb, leb, ◌==◌,
  if◌then◌else◌, ◌||◌, arith,
}

-- The fields of templates.NodesPage that the paging reads.
pub record NodesPage : Type 0 where
  pub page : ℕ
  pub size : ℕ
  pub total : ℕ

unfoldable pub nodes_range_start : NodesPage → ℕ
nodes_range_start d = if d.total == 0 then 0 else (d.page - 1) * d.size + 1

unfoldable pub nodes_range_end : NodesPage → ℕ
nodes_range_end d = let end = d.page * d.size in if ltb d.total end then d.total else end

unfoldable pub nodes_total_pages : NodesPage → ℕ
nodes_total_pages d =
    if leb d.size 0 || leb d.total 0
    then 1
    else (let pages = (d.total + d.size - 1) / d.size in if ltb pages 1 then 1 else pages)

-- how many pages of `s` rows `t` rows need
abbrev pages : ℕ → ℕ → ℕ
pages t s = (t + s - 1) / s

pages_iff : (x t s : ℕ) → 1 ≤ s → (x ≤ pages t s) ↔ (x * s ≤ t + s - 1)
pages_iff x t s hs = le-div_iff_mul-le {k = s} {x = x} {y = t + s - 1} hs

within : (q t s : ℕ) → 1 ≤ s → q + 1 ≤ pages t s → q * s < t
within q t s hs h = grind (arith, pages_iff (q + 1) t s hs, h)

enough : (t s : ℕ) → 1 ≤ s → t ≤ pages t s * s
enough t s hs = grind (arith, pages_iff (pages t s + 1) t s hs)

total_pages_lem :
    (d : NodesPage) → 1 ≤ d.size → 1 ≤ d.total → nodes_total_pages d ≡ pages d.total d.size
unfolding nodes_total_pages
total_pages_lem d hs ht =
    let one : 1 ≤ pages d.total d.size = grind (arith, pages_iff 1 d.total d.size hs, hs, ht) in
    ground (arith, one, hs, ht)

one_more : (p s : ℕ) → 1 ≤ p → p * s ≡ (p - 1) * s + s
one_more zero s h = absurd (omega (arith, h))
one_more (suc q) s h = grind arith

-- A page among those that there are, of a list that is not empty, shows a range of the list that is
-- not empty and not longer than the size; the last page ends with the list, and any other ends right
-- before the next one starts.
pub nodes_range-bounds :
    (d : NodesPage)
    → 1 ≤ d.size
    → 1 ≤ d.total
    → 1 ≤ d.page
    → d.page ≤ nodes_total_pages d
    → (1 ≤ nodes_range_start d)
      × (nodes_range_start d ≤ nodes_range_end d)
      × (nodes_range_end d ≤ d.total)
      × (nodes_range_end d < nodes_range_start d + d.size)
      × (d.page ≡ nodes_total_pages d → nodes_range_end d ≡ d.total)
      × (d.page < nodes_total_pages d
          → nodes_range_end d + 1 ≡ nodes_range_start (record d { page = d.page + 1 }))
unfolding nodes_range_start nodes_range_end
nodes_range-bounds d hs ht hp h =
    let n = pages d.total d.size in
    let same = total_pages_lem d hs ht in
    let inside : (d.page - 1) * d.size < d.total =
      within (d.page - 1) d.total d.size hs (omega (arith, h, hp, same)) in
    let full : d.page * d.size ≡ (d.page - 1) * d.size + d.size = one_more d.page d.size hp in
    (
      ground (arith, ht),
      ground (arith, ht, inside, full, hs),
      ground (arith, ht),
      ground (arith, ht, full, hs),
      (λ e.
          let all : d.total ≤ d.page * d.size =
            subst (λ p. d.total ≤ p * d.size) (sym (e ∙ same)) (enough d.total d.size hs) in
          ground (arith, all)),
      λ l.
          let more : d.page * d.size < d.total =
            within d.page d.total d.size hs (omega (arith, l, same)) in
          ground (arith, more, ht),
    )
