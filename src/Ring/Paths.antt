-- ===== src/Ring/Paths.antt =====
-- src/virtual_ring.hpp: paths through the nodes of a ring, and lists of distinct nodes.
use dfss.Base.{◌≡◌, refl, inl, inr, true, false, ◌||◌, List, [], ◌∷◌, ◌++◌, arith, ◌==◌, Bool-cases}
use dfss.Node.{Ptr}
use dfss.Ring.Shape.{mem, mem-append, IsDistinct, Chain}

pub mem-insert :
    (t q : Ptr) (xs ys : List Ptr) → mem q (xs ++ (t ∷ ys)) ≡ ((q == t) || mem q (xs ++ ys))
mem-insert t q [] ys = refl
mem-insert t q (x ∷ xs) ys = ground (arith, mem-insert t q xs ys)

pub IsDistinct-insert :
    (t : Ptr) (xs ys : List Ptr)
    → mem t (xs ++ ys) ≡ false
    → IsDistinct (xs ++ ys)
    → IsDistinct (xs ++ (t ∷ ys))
IsDistinct-insert t [] ys new d = (new, d)
IsDistinct-insert t (x ∷ xs) ys new d =
    (ground (arith, mem-insert t x xs ys), IsDistinct-insert t xs ys (ground arith) d.1)

pub Chain-split :
    (next : Ptr → Ptr) (p : Ptr) (xs ys : List Ptr) (stop : Ptr)
    → Chain next p (xs ++ ys) stop
    → (mid : Ptr) × Chain next p xs mid × Chain next mid ys stop
Chain-split next p [] ys stop path = (p, refl, path)
Chain-split next p (x ∷ xs) ys stop path =
    let (mid, front, back) = Chain-split next (next x) xs ys stop path.1 in
    (mid, (path.0, front), back)

pub Chain-join :
    (next : Ptr → Ptr) (p : Ptr) (xs ys : List Ptr) (mid stop : Ptr)
    → Chain next p xs mid
    → Chain next mid ys stop
    → Chain next p (xs ++ ys) stop
Chain-join next p [] ys mid stop front back = rw front back
Chain-join next p (x ∷ xs) ys mid stop front back =
    (front.0, Chain-join next (next x) xs ys mid stop front.1 back)

-- A path that ended at `b` ends at `t`, once the node before `b` points at `t`.
pub Chain-retarget :
    (next next' : Ptr → Ptr) (a b t : Ptr) (p x : Ptr) (xs : List Ptr)
    → next a ≡ b
    → next' a ≡ t
    → ((y : Ptr) → mem y (x ∷ xs) ≡ true → (y == a) ≡ false → next' y ≡ next y)
    → ((y : Ptr) → mem y (x ∷ xs) ≡ true → next y ≡ b → y ≡ a)
    → mem b xs ≡ false
    → Chain next p (x ∷ xs) b
    → Chain next' p (x ∷ xs) t
Chain-retarget next next' a b t p x [] ab at same one out path =
    let e : x ≡ a = one x (ground arith) path.1 in (path.0, rw e at)
Chain-retarget next next' a b t p x (y ∷ ys) ab at same one out path =
    let ne : (x == a) ≡ false = ground (arith, path.1.0) in
    let e : next' x ≡ next x = same x (ground arith) ne in
    (
      path.0,
      rw e (
          Chain-retarget next next' a b t (next x) y ys ab at (λ w h. same w (ground arith))
            (λ w h. one w (ground arith)) (ground arith) path.1),
    )

pub IsDistinct-not-mem :
    (y : Ptr) (xs ys : List Ptr) → IsDistinct (xs ++ ys) → mem y xs ≡ true → mem y ys ≡ false
IsDistinct-not-mem y [] ys d h = cc
IsDistinct-not-mem y (x ∷ xs) ys d h =
    ground (arith, mem-append x xs ys, IsDistinct-not-mem y xs ys d.1)

-- The last node of a path points at its end.
pub Chain-last :
    (next : Ptr → Ptr) (p x : Ptr) (xs : List Ptr) (stop : Ptr)
    → Chain next p (x ∷ xs) stop
    → (l : Ptr) × (mem l (x ∷ xs) ≡ true) × (next l ≡ stop)
Chain-last next p x [] stop path = (x, ground arith, path.1)
Chain-last next p x (y ∷ ys) stop path =
    let (l, i, e) = Chain-last next (next x) y ys stop path.1 in (l, ground arith, e)

-- In a circle that falls into `x ∷ xs` and `ys`, the node that `ys` starts with is not in `xs`.
pub mid-not-mem :
    (next : Ptr → Ptr) (x mid : Ptr) (xs ys : List Ptr)
    → IsDistinct (x ∷ (xs ++ ys))
    → Chain next mid ys x
    → mem mid xs ≡ false
mid-not-mem next x mid xs [] d path = ground (arith, mem-append x xs [])
mid-not-mem next x mid xs (y ∷ ys) d path = elim (Bool-cases (mem mid xs)) [
  | inr e ↦ e
  | inl e ↦ absurd (clash (IsDistinct-not-mem mid xs (y ∷ ys) d.1 e) path.0)
]
  where
    clash : mem mid (y ∷ ys) ≡ false → mid ≡ y → ⊥
    clash h k = ground arith

pub mid-mem :
    (next : Ptr → Ptr) (x mid : Ptr) (xs ys : List Ptr)
    → Chain next mid ys x
    → mem mid (x ∷ (xs ++ ys)) ≡ true
mid-mem next x mid xs [] path = ground arith
mid-mem next x mid xs (y ∷ ys) path = ground (arith, mem-append mid xs (y ∷ ys))
