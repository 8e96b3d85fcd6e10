-- ===== src/Introducer/Near.antt =====
-- src/client.cpp, `intro_handler` and `update_nodes`: whose addresses a node is sent, and how many.
use dfss.Base.{
  suc, ◌≤◌, ◌≡◌, sym, ap, ◌∙◌, subst, ◌≢◌, ◌⊎◌, inl, inr, true, false, some, List, [], ◌∷◌, ◌==◌,
  arith, length, Bool-cases, leb,
}
use dfss.Text.{Str, str_eq, str_eq_iff}
use dfss.Text.Order.{set_has, set_insert}
use dfss.Node.{Ptr, null, VirtualRing}
use dfss.Introducer.{add_neighbour, neighbour_set}
use dfss.Introducer.Replies.{names}
use dfss.Ring.Shape.{mem, IsCycle, IsRing}
use dfss.Ring.Spec.{addresses, set_has-map}

length-set_insert : (x : Str) (ys : List Str) → length (set_insert x ys) ≤ suc (length ys)
unfolding set_insert
length-set_insert x [] = omega arith
length-set_insert x (y ∷ ys) = ground (arith, length-set_insert x ys)

length-add_neighbour :
    (ip : Str) (p : Ptr) (r : VirtualRing) (xs : List Str)
    → length (add_neighbour ip p r xs) ≤ suc (length xs)
unfolding add_neighbour
length-add_neighbour ip p r xs = ground (arith, length-set_insert (r.ip_addr p) xs)

-- Four pointers give at most four addresses.
pub length-neighbour_set :
    (ip : Str) (t : Ptr) (r : VirtualRing) (xs : List Str)
    → t ≢ null
    → neighbour_set ip t r ≡ some xs
    → length xs ≤ 4
unfolding neighbour_set
length-neighbour_set ip t r xs ne e =
    let open_t : (t == null) ≡ false = ground arith in
    let l1 = add_neighbour ip (r.next1 t) r [] in
    let l2 = add_neighbour ip (r.next2 t) r l1 in
    let l3 = add_neighbour ip (r.prev1 t) r l2 in
    let l4 = add_neighbour ip (r.prev2 t) r l3 in
    let same : l4 ≡ xs = cc (rw open_t at e) in
    omega (
      arith,
      ap length same,
      length-add_neighbour ip (r.next1 t) r [],
      length-add_neighbour ip (r.next2 t) r l1,
      length-add_neighbour ip (r.prev1 t) r l2,
      length-add_neighbour ip (r.prev2 t) r l3,
    )

-- A pointer of a member is NULL or leads to a member.
abbrev pub Within : List Ptr → Ptr → Type 0
Within ps p = (p ≡ null) ⊎ (mem p ps ≡ true)

module _ (r : VirtualRing) (start : Ptr) (ps : List Ptr) (cycle : IsCycle r start ps) (t : Ptr)
    (i : mem t ps ≡ true) where
  open cycle.linked use {next_mem, prev_mem}

  idle_Within : (p : Ptr) → (p ≡ null) ⊎ (p ≡ t) → Within ps p
  idle_Within p (inl e) = inl e
  idle_Within p (inr e) = inr (subst (λ q. mem q ps ≡ true) (sym e) i)

  seconds : Within ps (r.next2 t) × Within ps (r.prev2 t)
  seconds = elim (Bool-cases (leb 3 (length ps))) [
    | inl three ↦
        let (n, p) = cycle.second (ground arith) t i in
        (
          inr (subst (λ q. mem q ps ≡ true) (sym n) (next_mem (r.next1 t) (next_mem t i))),
          inr (subst (λ q. mem q ps ≡ true) (sym p) (prev_mem (r.prev1 t) (prev_mem t i))),
        )
    | inr few ↦
        let (n, p) = cycle.idle (ground (arith, cycle.two)) t i in
        (idle_Within (r.next2 t) n, idle_Within (r.prev2 t) p)
  ]

-- The four pointers of a node of a well-formed ring.
pub near :
    (r : VirtualRing) (nodes : List Ptr) (t : Ptr)
    → IsRing r nodes
    → mem t (r.introducer ∷ nodes) ≡ true
    → Within (r.introducer ∷ nodes) (r.next1 t)
      × Within (r.introducer ∷ nodes) (r.next2 t)
      × Within (r.introducer ∷ nodes) (r.prev1 t)
      × Within (r.introducer ∷ nodes) (r.prev2 t)
near r nodes t (inl (e, single)) i =
    let own : t ≡ r.introducer = ground (arith, subst (λ l. mem t (r.introducer ∷ l) ≡ true) e i) in
    (
      inl (ap r.next1 own ∙ single.next1),
      inl (ap r.next2 own ∙ single.next2),
      inl (ap r.prev1 own ∙ single.prev1),
      inl (ap r.prev2 own ∙ single.prev2),
    )
near r nodes t (inr c) i =
    let (n2, p2) = seconds r r.introducer (r.introducer ∷ nodes) c.cycle t i in
    (inr (c.cycle.linked.next_mem t i), n2, inr (c.cycle.linked.prev_mem t i), p2)

-- An address that one of four such pointers names is an address of the ring, and not `ip`.
pub names-Within :
    (ip : Str) (r : VirtualRing) (nodes : List Ptr) (x : Str) (p : Ptr)
    → Within (r.introducer ∷ nodes) p
    → names ip r x p ≡ true
    → (set_has x (addresses r nodes) ≡ true) × (str_eq ip x ≡ false)
names-Within ip r nodes x p (inl e) named = absurd (ground arith)
names-Within ip r nodes x p (inr i) named =
    let same : x ≡ r.ip_addr p = ground (arith, str_eq_iff x (r.ip_addr p)) in
    (
      subst (λ y. set_has y (addresses r nodes) ≡ true) (sym same)
          (set_has-map r.ip_addr p (r.introducer ∷ nodes) i),
      ground arith,
    )
