-- ===== src/Ring/Cycle.antt =====
-- src/virtual_ring.cpp: steps around a ring of nodes.
use dfss.Base.{
  suc, ◌≤◌, ◌≡◌, refl, inl, inr, true, false, List, [], ◌∷◌, arith, ◌==◌, if◌then◌else◌, length,
  All, Bool-cases,
}
use dfss.Node.{Ptr, VirtualRing}
use dfss.Ring.Shape.{mem, IsDistinct, Chain, IsCycle}

remove : Ptr → List Ptr → List Ptr
remove p [] = []
remove p (x ∷ xs) = if p == x then xs else x ∷ remove p xs

length-remove : (p : Ptr) (qs : List Ptr) → mem p qs ≡ true → suc (length (remove p qs)) ≡ length qs
unfolding remove
length-remove p [] h = cc
length-remove p (x ∷ xs) h = ground (arith, length-remove p xs)

mem-remove :
    (p q : Ptr) (qs : List Ptr) → (q == p) ≡ false → mem q qs ≡ true → mem q (remove p qs) ≡ true
unfolding remove
mem-remove p q [] ne h = h
mem-remove p q (x ∷ xs) ne h = ground (arith, mem-remove p q xs ne)

All-remove :
    (p : Ptr) (xs qs : List Ptr)
    → mem p xs ≡ false
    → All (λ x. mem x qs ≡ true) xs
    → All (λ x. mem x (remove p qs) ≡ true) xs
All-remove p [] qs out h = tt
All-remove p (x ∷ xs) qs out h =
    (mem-remove p x qs (ground arith) h.0, All-remove p xs qs (ground arith) h.1)

-- Distinct nodes that all stand in `qs` are at most as many as `qs`.
pub pigeonhole :
    (ps qs : List Ptr) → IsDistinct ps → All (λ x. mem x qs ≡ true) ps → length ps ≤ length qs
pigeonhole [] qs d h = omega arith
pigeonhole (p ∷ ps) qs d h =
    let rest = pigeonhole ps (remove p qs) d.1 (All-remove p ps qs d.0 h.1) in
    omega (arith, rest, length-remove p qs h.0)

module _ (next : Ptr → Ptr) (qs : List Ptr)
    (closed : (y : Ptr) → mem y qs ≡ true → mem (next y) qs ≡ true) where
  closed-All :
      (p : Ptr) (xs : List Ptr) (stop : Ptr)
      → Chain next p xs stop
      → mem p qs ≡ true
      → All (λ x. mem x qs ≡ true) xs × (mem stop qs ≡ true)
  closed-All p [] stop path h = (tt, rw (← path) h)
  closed-All p (x ∷ xs) stop path h =
      let hx : mem x qs ≡ true = rw (← path.0) h in
      let rest = closed-All (next x) xs stop path.1 (closed x hx) in ((hx, rest.0), rest.1)

  closed-stop :
      (p : Ptr) (xs : List Ptr) (stop x : Ptr)
      → Chain next p xs stop
      → mem x xs ≡ true
      → mem x qs ≡ true
      → mem stop qs ≡ true
  closed-stop p [] stop x path i h = cc
  closed-stop p (y ∷ ys) stop x path i h = elim (Bool-cases (x == y)) [
    | inl e ↦
        let hy : mem y qs ≡ true = ground arith in
        (closed-All (next y) ys stop path.1 (closed y hy)).1
    | inr e ↦ closed-stop (next y) ys stop x path.1 (ground arith) h
  ]

  -- A set that holds one node of a ring and its successors holds the ring.
  pub closed-length :
      (start : Ptr) (ps : List Ptr) (x : Ptr)
      → IsDistinct ps
      → Chain next start ps start
      → mem x ps ≡ true
      → mem x qs ≡ true
      → length ps ≤ length qs
  closed-length start ps x d path i h =
      pigeonhole ps qs d (closed-All start ps start path (closed-stop start ps start x path i h)).0

module _ (r : VirtualRing) (start : Ptr) (ps : List Ptr) (cycle : IsCycle r start ps) where
  open r use {next1, prev1}
  open cycle.linked use {next_mem, prev_next}

  pub closed_within :
      (qs : List Ptr) (p : Ptr)
      → mem p ps ≡ true
      → mem p qs ≡ true
      → ((y : Ptr) → mem y qs ≡ true → mem (next1 y) qs ≡ true)
      → length ps ≤ length qs
  closed_within qs p i h closed =
      closed-length next1 qs closed start ps p cycle.distinct cycle.path i h

  pub next-ne : (p : Ptr) → mem p ps ≡ true → (next1 p == p) ≡ false
  next-ne p i = elim (Bool-cases (next1 p == p)) [
    | inr e ↦ e
    | inl e ↦
        absurd (
          omega (arith, cycle.two, closed_within (p ∷ []) p i (ground arith) (λ y h. ground arith)))
  ]

  pub next_twice-ne : 3 ≤ length ps → (p : Ptr) → mem p ps ≡ true → (next1 (next1 p) == p) ≡ false
  next_twice-ne three p i = elim (Bool-cases (next1 (next1 p) == p)) [
    | inr e ↦ e
    | inl e ↦
        absurd
          (omega (arith, closed_within (p ∷ next1 p ∷ []) p i (ground arith) (λ y h. ground arith)))
  ]

  -- Two nodes: two steps lead back.
  pub next_twice : length ps ≡ 2 → (p : Ptr) → mem p ps ≡ true → next1 (next1 p) ≡ p
  next_twice two p i = elim (Bool-cases (next1 (next1 p) == p)) [
    | inl e ↦ ground arith
    | inr e ↦
        let one = next-ne p i in
        let more = next-ne (next1 p) (next_mem p i) in
        let j = next_mem p i in
        let k = next_mem (next1 p) j in
        absurd (
          omega (
            arith,
            two,
            pigeonhole (p ∷ next1 p ∷ next1 (next1 p) ∷ []) ps
                (ground arith, (ground arith, (refl, tt))) (i, (j, (k, tt))),
          ))
  ]

  -- Three nodes: three steps lead back.
  pub next_thrice : length ps ≡ 3 → (p : Ptr) → mem p ps ≡ true → next1 (next1 (next1 p)) ≡ p
  next_thrice three p i = elim (Bool-cases (next1 (next1 (next1 p)) == p)) [
    | inl e ↦ ground arith
    | inr e ↦
        let j = next_mem p i in
        let k = next_mem (next1 p) j in
        let l = next_mem (next1 (next1 p)) k in
        let ab = next-ne p i in
        let bc = next-ne (next1 p) j in
        let cd = next-ne (next1 (next1 p)) k in
        let ac = next_twice-ne (omega arith) p i in
        let bd = next_twice-ne (omega arith) (next1 p) j in
        absurd (
          omega (
            arith,
            three,
            pigeonhole (p ∷ next1 p ∷ next1 (next1 p) ∷ next1 (next1 (next1 p)) ∷ []) ps
                (ground arith, (ground arith, (ground arith, (refl, tt)))) (i, (j, (k, (l, tt)))),
          ))
  ]
