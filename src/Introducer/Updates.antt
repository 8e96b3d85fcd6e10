-- ===== src/Introducer/Updates.antt =====
-- src/client.cpp, `update_nodes`: who is sent a list, and which.
use dfss.Base.{
  ◌≡◌, refl, sym, ap, subst, ◌≢◌, inl, inr, false, some, List, [], ◌∷◌, arith, length, ◌==◌,
  if◌then◌else◌,
}
use dfss.Text.{Str, str_eq}
use dfss.Text.Split.{Boost}
use dfss.Node.{Ptr, null, VirtualRing}
use dfss.Introducer.{neighbour_set, write_list, update_loop, update_nodes}
use dfss.Introducer.Replies.{IsNeighbourSet, neighbour_set-IsNeighbourSet}
use dfss.Ring.Refine.{IsRing-live}
use dfss.Ring.Search.{AllLive}
use dfss.Ring.Shape.{Chain, IsRing}
use dfss.Ring.Spec.{Represents}
use dfss.Ring.Splice.{Yields, Yields-some}

-- One message for each node of the list but those at the address `first`: the addresses behind the
-- node's four pointers, as they are written, which is also what `neighbour_set` gives.
abbrev pub Sends : VirtualRing → Str → List Ptr → List (Str × Str) → Type 0
Sends r first [] sent = sent ≡ []
Sends r first (t ∷ ts) sent =
    (xs : List Str) × (rest : List (Str × Str)) × IsNeighbourSet r t xs
    × (neighbour_set (r.ip_addr t) t r ≡ some xs)
    × (sent ≡ (if str_eq (r.ip_addr t) first then rest else (r.ip_addr t, write_list [] xs) ∷ rest))
    × Sends r first ts rest

update_loop-Sends :
    (r : VirtualRing) (t stop : Ptr) (ts : List Ptr)
    → r.introducer ≢ null
    → AllLive ts
    → Chain r.next1 t ts stop
    → Yields (Sends r (r.ip_addr r.introducer) ts) (update_loop (length ts) t r)
unfolding update_loop
update_loop-Sends r t stop [] ne live path = refl
update_loop-Sends r t stop (x ∷ ts) ne live (e, path) =
    let open_i : (r.introducer == null) ≡ false = ground arith in
    let live_t : t ≢ null = subst (λ y. y ≢ null) (sym e) live.0 in
    let open_t : (t == null) ≡ false = ground arith in
    let (xs, set, exact) = neighbour_set-IsNeighbourSet t r live_t in
    let path' : Chain r.next1 (r.next1 t) ts stop =
      subst (λ y. Chain r.next1 (r.next1 y) ts stop) (sym e) path in
    let (rest, run, sends) =
      Yields-some (update_loop (length ts) (r.next1 t) r)
        (update_loop-Sends r (r.next1 t) stop ts ne live.1 path') in
    rw (open_t, set, open_i, run)
      (
        xs,
        rest,
        subst (λ y. IsNeighbourSet r y xs) e exact,
        subst (λ y. neighbour_set (r.ip_addr y) y r ≡ some xs) e set,
        subst
            (λ y.
              (if str_eq (r.ip_addr t) (r.ip_addr r.introducer)
                then rest
                else (r.ip_addr t, write_list [] xs) ∷ rest)
              ≡ (if str_eq (r.ip_addr y) (r.ip_addr r.introducer)
                  then rest
                  else (r.ip_addr y, write_list [] xs) ∷ rest))
            e refl,
        sends,
      )

walk :
    (r : VirtualRing) (xs : List Ptr) (stop : Ptr)
    → AllLive (r.introducer ∷ xs)
    → Chain r.next1 r.introducer (r.introducer ∷ xs) stop
    → length (r.introducer ∷ xs) ≡ r.count
    → Yields (Sends r (r.ip_addr r.introducer) (r.introducer ∷ xs)) (update_nodes r)
unfolding update_nodes
walk r xs stop live path counted =
    subst
      (λ k.
        Yields (Sends r (r.ip_addr r.introducer) (r.introducer ∷ xs))
          (update_loop k r.introducer r))
      counted (update_loop-Sends r r.introducer stop (r.introducer ∷ xs) live.0 live path)

pub update_nodes-Sends :
    (b : Boost) (r : VirtualRing) (ips : List Str) (rep : Represents b r ips)
    → Yields (Sends r (r.ip_addr r.introducer) (r.introducer ∷ rep.nodes)) (update_nodes r)
update_nodes-Sends b r ips rep = ring rep.ring
  where
    live : AllLive (r.introducer ∷ rep.nodes)
    live = IsRing-live r rep.nodes rep.ring

    ring :
        IsRing r rep.nodes
        → Yields (Sends r (r.ip_addr r.introducer) (r.introducer ∷ rep.nodes)) (update_nodes r)
    ring (inl (e, single)) =
        walk r rep.nodes (r.next1 r.introducer) live
          (subst (λ xs. Chain r.next1 r.introducer (r.introducer ∷ xs) (r.next1 r.introducer))
            (sym e) (refl, refl))
          (omega (arith, single.counted, ap length e))
    ring (inr c) = walk r rep.nodes r.introducer live c.cycle.path (sym c.counted)
