-- ===== src/Introducer/Mutual.antt =====
-- src/client.cpp, `intro_handler` and `update_nodes`: the lists that two nodes of a ring are sent.
use dfss.Base.{
  ◌≤◌, ◌≡◌, sym, ap, subst, ◌∙◌, ◌⊎◌, inl, inr, Bool, true, false, some, List, ◌∷◌, arith, length,
  ◌||◌,
}
use dfss.Text.{Str, str_eq, str_eq_refl}
use dfss.Text.Order.{set_has}
use dfss.Text.Split.{Boost}
use dfss.Node.{Ptr, VirtualRing}
use dfss.Introducer.{neighbour_set}
use dfss.Introducer.Replies.{names, neighbour_set_lem}
use dfss.Introducer.Watch.{IsNeighbour, watch_sym}
use dfss.Ring.Shape.{mem, IsCycle, IsRing}
use dfss.Ring.Spec.{Represents, length-map}

any :
    (w x y z : Bool)
    → (z ≡ true) ⊎ ((y ≡ true) ⊎ ((x ≡ true) ⊎ (w ≡ true)))
    → (w || (x || (y || z))) ≡ true
any w x y z h = ground arith

module _ (r : VirtualRing) (ps : List Ptr) (cycle : IsCycle r r.introducer ps) (p q : Ptr)
    (i : mem p ps ≡ true) (j : mem q ps ≡ true)
    (other : str_eq (r.ip_addr q) (r.ip_addr p) ≡ false) where
  abbrev asks : Ptr → Bool
  asks x = names (r.ip_addr q) r (r.ip_addr p) x

  p_named : asks p ≡ true
  p_named = ground (arith, cycle.linked.live p i, str_eq_refl (r.ip_addr p), other)

  cycle-mutual :
      3 ≤ length ps
      → IsNeighbour r p q
      → (ys : List Str) × (neighbour_set (r.ip_addr q) q r ≡ some ys)
        × (set_has (r.ip_addr p) ys ≡ true)
  cycle-mutual three near =
      let (ys, e, rising, has) = neighbour_set_lem (r.ip_addr q) q r (cycle.linked.live q j).0 in
      (ys, e, has (r.ip_addr p) ∙ pick (watch_sym r r.introducer ps cycle p i q three near))
    where
      at_p : (x : Ptr) → x ≡ p → asks x ≡ true
      at_p x e = subst (λ y. asks y ≡ true) (sym e) p_named

      pick :
          IsNeighbour r q p
          → (asks (r.prev2 q) || (asks (r.prev1 q) || (asks (r.next2 q) || asks (r.next1 q))))
            ≡ true
      pick (inl e) =
          any (asks (r.prev2 q)) (asks (r.prev1 q)) (asks (r.next2 q)) (asks (r.next1 q))
            (inl (at_p (r.next1 q) e))
      pick (inr (inl e)) =
          any (asks (r.prev2 q)) (asks (r.prev1 q)) (asks (r.next2 q)) (asks (r.next1 q))
            (inr (inl (at_p (r.next2 q) e)))
      pick (inr (inr (inl e))) =
          any (asks (r.prev2 q)) (asks (r.prev1 q)) (asks (r.next2 q)) (asks (r.next1 q))
            (inr (inr (inl (at_p (r.prev1 q) e))))
      pick (inr (inr (inr e))) =
          any (asks (r.prev2 q)) (asks (r.prev1 q)) (asks (r.next2 q)) (asks (r.next1 q))
            (inr (inr (inr (at_p (r.prev2 q) e))))

-- In a well-formed ring of at least three nodes: if `q` is one of the four neighbours of `p`, under
-- another address, then the list that is sent to `q` holds the address of `p`. So whoever is watched
-- watches back.
pub neighbour_set-mutual :
    (b : Boost) (r : VirtualRing) (ips : List Str) (rep : Represents b r ips) (p q : Ptr)
    → mem p (r.introducer ∷ rep.nodes) ≡ true
    → mem q (r.introducer ∷ rep.nodes) ≡ true
    → str_eq (r.ip_addr q) (r.ip_addr p) ≡ false
    → 3 ≤ length ips
    → IsNeighbour r p q
    → (ys : List Str) × (neighbour_set (r.ip_addr q) q r ≡ some ys)
      × (set_has (r.ip_addr p) ys ≡ true)
neighbour_set-mutual b r ips rep p q i j other three near =
    let size : length ips ≡ length (r.introducer ∷ rep.nodes) =
      ap length (sym rep.addrs) ∙ length-map r.ip_addr (r.introducer ∷ rep.nodes) in
    circle rep.ring (omega (arith, three, size))
  where
    circle :
        IsRing r rep.nodes
        → 3 ≤ length (r.introducer ∷ rep.nodes)
        → (ys : List Str) × (neighbour_set (r.ip_addr q) q r ≡ some ys)
          × (set_has (r.ip_addr p) ys ≡ true)
    circle (inl (e, single)) more = absurd (omega (arith, more, ap length e))
    circle (inr c) more = cycle-mutual r (r.introducer ∷ rep.nodes) c.cycle p q i j other more near
