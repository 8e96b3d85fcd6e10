-- ===== src/Introducer/Watch.antt =====
-- src/virtual_ring.hpp and src/client.cpp: who watches whom in a ring.
use dfss.Base.{
  ◌≤◌, ◌≡◌, refl, sym, ap, subst, ◌∙◌, ◌⊎◌, inl, inr, true, false, List, [], ◌∷◌, arith, ◌==◌,
  length, Bool-cases,
}
use dfss.Node.{Ptr, VirtualRing}
use dfss.Ring.Cycle.{next-ne, next_twice-ne, closed_within}
use dfss.Ring.Shape.{mem, IsCycle, IsDistinct}

-- `q` is among the pointers of `p`.
abbrev pub IsNeighbour : VirtualRing → Ptr → Ptr → Type 0
IsNeighbour r p q = (r.next1 p ≡ q) ⊎ (r.next2 p ≡ q) ⊎ (r.prev1 p ≡ q) ⊎ (r.prev2 p ≡ q)

module _ (r : VirtualRing) (start : Ptr) (ps : List Ptr) (cycle : IsCycle r start ps) (p : Ptr)
    (i : mem p ps ≡ true) where
  open cycle.linked use {next_mem, prev_mem, prev_next, next_prev}

  pub watch_sym : (q : Ptr) → 3 ≤ length ps → IsNeighbour r p q → IsNeighbour r q p
  watch_sym q three (inl e) = inr (inr (inl (subst (λ x. r.prev1 x ≡ p) e (prev_next p i))))
  watch_sym q three (inr (inl e)) =
      let two : r.next1 (r.next1 p) ≡ q = sym (cycle.second three p i).0 ∙ e in
      let back =
        (cycle.second three (r.next1 (r.next1 p)) (next_mem (r.next1 p) (next_mem p i))).1 in
      inr (
        inr (
          inr (
            subst (λ x. r.prev2 x ≡ p) two
              (back ∙ ap r.prev1 (prev_next (r.next1 p) (next_mem p i)) ∙ prev_next p i))))
  watch_sym q three (inr (inr (inl e))) = inl (subst (λ x. r.next1 x ≡ p) e (next_prev p i))
  watch_sym q three (inr (inr (inr e))) =
      let two : r.prev1 (r.prev1 p) ≡ q = sym (cycle.second three p i).1 ∙ e in
      let forth =
        (cycle.second three (r.prev1 (r.prev1 p)) (prev_mem (r.prev1 p) (prev_mem p i))).0 in
      inr (
        inl (
          subst (λ x. r.next2 x ≡ p) two
            (forth ∙ ap r.next1 (next_prev (r.prev1 p) (prev_mem p i)) ∙ next_prev p i)))

  next_thrice-ne : 4 ≤ length ps → (r.next1 (r.next1 (r.next1 p)) == p) ≡ false
  next_thrice-ne four = elim (Bool-cases (r.next1 (r.next1 (r.next1 p)) == p)) [
    | inr e ↦ e
    | inl e ↦ absurd (
        omega (
          arith,
          four,
          closed_within r start ps cycle (p ∷ r.next1 p ∷ r.next1 (r.next1 p) ∷ []) p i
              (ground arith) (λ y h. ground arith),
        ))
  ]

  next_four-ne : 5 ≤ length ps → (r.next1 (r.next1 (r.next1 (r.next1 p))) == p) ≡ false
  next_four-ne five = elim (Bool-cases (r.next1 (r.next1 (r.next1 (r.next1 p))) == p)) [
    | inr e ↦ e
    | inl e ↦ absurd (
        omega (
          arith,
          five,
          closed_within r start ps cycle
              (p ∷ r.next1 p ∷ r.next1 (r.next1 p) ∷ r.next1 (r.next1 (r.next1 p)) ∷ []) p i
              (ground arith) (λ y h. ground arith),
        ))
  ]

module _ (r : VirtualRing) (start : Ptr) (ps : List Ptr) (cycle : IsCycle r start ps)
    (five : 5 ≤ length ps) (p : Ptr) (i : mem p ps ≡ true) where
  open cycle.linked use {next_mem, prev_mem, prev_next, next_prev}

  -- A node and its four neighbours are five nodes.
  pub watch-IsDistinct : IsDistinct (p ∷ r.next1 p ∷ r.next2 p ∷ r.prev1 p ∷ r.prev2 p ∷ [])
  watch-IsDistinct =
      let k = prev_mem p i in
      let j = prev_mem (r.prev1 p) k in
      let back = next_prev p i in
      let back2 = next_prev (r.prev1 p) k in
      let second = cycle.second (omega (arith, five)) p i in
      let n1 = next_mem p i in
      let ne : (x : Ptr) → mem x ps ≡ true → (r.next1 x == x) ≡ false = next-ne r start ps cycle in
      let ne2 : (x : Ptr) → mem x ps ≡ true → (r.next1 (r.next1 x) == x) ≡ false =
        next_twice-ne r start ps cycle (omega (arith, five)) in
      let ne3 : (x : Ptr) → mem x ps ≡ true → (r.next1 (r.next1 (r.next1 x)) == x) ≡ false =
        λ x h. next_thrice-ne r start ps cycle x h (omega (arith, five)) in
      let ne4 = next_four-ne r start ps cycle (r.prev1 (r.prev1 p)) j five in
      (
        ground (arith, ne p i, ne2 p i, ne (r.prev1 p) k, ne2 (r.prev1 (r.prev1 p)) j),
        (
          ground (arith, ne (r.next1 p) n1, ne2 (r.prev1 p) k, ne3 (r.prev1 (r.prev1 p)) j),
          (
            ground (arith, ne3 (r.prev1 p) k, ne4),
            (ground (arith, ne (r.prev1 (r.prev1 p)) j), (refl, tt)),
          ),
        ),
      )
