-- ===== src/Ring/Shape.antt =====
-- src/virtual_ring.hpp: what makes the nodes of `class virtual_ring` a ring.
use dfss.Base.{
  ◌≤◌, ◌<◌, ◌≡◌, refl, sym, subst, ◌≢◌, ◌⊎◌, inl, inr, Bool, true, false, ◌||◌, List, [], ◌∷◌, ◌++◌,
  arith, ◌==◌, length, All, Bool-cases,
}
use dfss.Node.{Ptr, null, VirtualRing}

abbrev pub mem : Ptr → List Ptr → Bool
mem p [] = false
mem p (x ∷ xs) = (p == x) || mem p xs

abbrev pub IsDistinct : List Ptr → Type 0
IsDistinct [] = Unit {0}
IsDistinct (x ∷ xs) = (mem x xs ≡ false) × IsDistinct xs

-- From `p` the pointers `next` lead through `xs` to `stop`.
abbrev pub Chain : (Ptr → Ptr) → Ptr → List Ptr → Ptr → Type 0
Chain next p [] stop = p ≡ stop
Chain next p (x ∷ xs) stop = (p ≡ x) × Chain next (next x) xs stop

pub mem-append : (p : Ptr) (xs ys : List Ptr) → mem p (xs ++ ys) ≡ (mem p xs || mem p ys)
mem-append p [] ys = refl
mem-append p (x ∷ xs) ys = ground (arith, mem-append p xs ys)

pub All-of-mem : {P : Ptr → Type 0} (xs : List Ptr) → ((p : Ptr) → mem p xs ≡ true → P p) → All P xs
All-of-mem [] h = tt
All-of-mem (x ∷ xs) h = (h x (ground arith), All-of-mem xs (λ p i. h p (ground arith)))

pub mem-All : (P : Ptr → Type 0) (xs : List Ptr) → All P xs → (p : Ptr) → mem p xs ≡ true → P p
mem-All P [] h p i = absurd (nothing i)
  where
    nothing : false ≡ true → ⊥
    nothing e = cc
mem-All P (x ∷ xs) h p i = elim (Bool-cases (p == x)) [
  | inl e ↦ let same : p ≡ x = ground arith in subst P (sym same) h.0
  | inr e ↦ mem-All P xs h.1 p (ground arith)
]

-- The links of the members of a ring, seen from each member.
pub record IsLinked (r : VirtualRing) (ps : List Ptr) : Type 0 where
  pub live : (p : Ptr) → mem p ps ≡ true → (p ≢ null) × (p < r.fresh)
  pub next_mem : (p : Ptr) → mem p ps ≡ true → mem (r.next1 p) ps ≡ true
  pub prev_mem : (p : Ptr) → mem p ps ≡ true → mem (r.prev1 p) ps ≡ true
  pub prev_next : (p : Ptr) → mem p ps ≡ true → r.prev1 (r.next1 p) ≡ p
  pub next_prev : (p : Ptr) → mem p ps ≡ true → r.next1 (r.prev1 p) ≡ p

-- `next2` and `prev2` are two steps away. Of two nodes they are NULL or the node itself.
abbrev pub IsSecond : VirtualRing → Ptr → Type 0
IsSecond r p = (r.next2 p ≡ r.next1 (r.next1 p)) × (r.prev2 p ≡ r.prev1 (r.prev1 p))

abbrev pub IsIdle : VirtualRing → Ptr → Type 0
IsIdle r p = ((r.next2 p ≡ null) ⊎ (r.next2 p ≡ p)) × ((r.prev2 p ≡ null) ⊎ (r.prev2 p ≡ p))

-- At least two nodes in a circle, `ps` in the order of `next1` from `start` on.
pub record IsCycle (r : VirtualRing) (start : Ptr) (ps : List Ptr) : Type 0 where
  pub two : 2 ≤ length ps
  pub distinct : IsDistinct ps
  pub path : Chain r.next1 start ps start
  pub linked : IsLinked r ps
  pub second : 3 ≤ length ps → (p : Ptr) → mem p ps ≡ true → IsSecond r p
  pub idle : length ps ≡ 2 → (p : Ptr) → mem p ps ≡ true → IsIdle r p

-- The introducer alone, before anyone has joined.
pub record IsSingle (r : VirtualRing) : Type 0 where
  pub counted : r.count ≡ 1
  pub live : (r.introducer ≢ null) × (r.introducer < r.fresh)
  pub next1 : r.next1 r.introducer ≡ null
  pub next2 : r.next2 r.introducer ≡ null
  pub prev1 : r.prev1 r.introducer ≡ null
  pub prev2 : r.prev2 r.introducer ≡ null

pub record IsCircle (r : VirtualRing) (ps : List Ptr) : Type 0 where
  pub counted : r.count ≡ length ps
  pub cycle : IsCycle r r.introducer ps

-- The well-formed rings, with their nodes behind the introducer.
abbrev pub IsRing : VirtualRing → List Ptr → Type 0
IsRing r xs = ((xs ≡ []) × IsSingle r) ⊎ IsCircle r (r.introducer ∷ xs)

pub Chain-frame :
    (next next' : Ptr → Ptr) (p : Ptr) (xs : List Ptr) (stop : Ptr)
    → ((y : Ptr) → mem y xs ≡ true → next' y ≡ next y)
    → Chain next p xs stop
    → Chain next' p xs stop
Chain-frame next next' p [] stop same path = path
Chain-frame next next' p (x ∷ xs) stop same path =
    let e : next' x ≡ next x = same x (ground arith) in
    (path.0, rw e (Chain-frame next next' (next x) xs stop (λ y h. same y (ground arith)) path.1))

-- Two rings whose members have the same links.
pub record SameOn (ps : List Ptr) (r s : VirtualRing) : Type 0 where
  pub next1 : (p : Ptr) → mem p ps ≡ true → s.next1 p ≡ r.next1 p
  pub next2 : (p : Ptr) → mem p ps ≡ true → s.next2 p ≡ r.next2 p
  pub prev1 : (p : Ptr) → mem p ps ≡ true → s.prev1 p ≡ r.prev1 p
  pub prev2 : (p : Ptr) → mem p ps ≡ true → s.prev2 p ≡ r.prev2 p
  pub fresh : r.fresh ≤ s.fresh

pub SameOn-introducer :
    (ps : List Ptr) (r : VirtualRing) (p : Ptr) → SameOn ps r (record r { introducer = p })
SameOn-introducer ps r p = record {
  next1 = λ q i. refl;
  next2 = λ q i. refl;
  prev1 = λ q i. refl;
  prev2 = λ q i. refl;
  fresh = omega arith;
}

module _ (r s : VirtualRing) (start : Ptr) (ps : List Ptr) (same : SameOn ps r s) where
  IsLinked-frame : IsLinked r ps → IsLinked s ps
  IsLinked-frame k = record {
    live = λ p i. ground (arith, k.live p i, same.fresh);
    next_mem = λ p i. rw (same.next1 p i) (k.next_mem p i);
    prev_mem = λ p i. rw (same.prev1 p i) (k.prev_mem p i);
    prev_next =
        λ p i. rw (same.next1 p i, same.prev1 (r.next1 p) (k.next_mem p i)) (k.prev_next p i);
    next_prev =
        λ p i. rw (same.prev1 p i, same.next1 (r.prev1 p) (k.prev_mem p i)) (k.next_prev p i);
  }

  pub IsCycle-frame : IsCycle r start ps → IsCycle s start ps
  IsCycle-frame c = record {
    two = c.two;
    distinct = c.distinct;
    path = Chain-frame r.next1 s.next1 start ps start same.next1 c.path;
    linked = IsLinked-frame c.linked;
    second = λ three p i. (
      cc (
        same.next2 p i,
        same.next1 p i,
        same.next1 (r.next1 p) (c.linked.next_mem p i),
        (c.second three p i).0,
      ),
      cc (
        same.prev2 p i,
        same.prev1 p i,
        same.prev1 (r.prev1 p) (c.linked.prev_mem p i),
        (c.second three p i).1,
      ),
    );
    idle = λ two p i. rw (same.next2 p i, same.prev2 p i) (c.idle two p i);
  }
