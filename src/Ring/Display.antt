-- ===== src/Ring/Display.antt =====
-- src/virtual_ring.cpp, `display`: what it prints, line by line.
use dfss.Base.{
  ℕ, zero, suc, ◌≡◌, refl, sym, ap, subst, ◌≢◌, false, inl, inr, Option, some, List, [], ◌∷◌, ◌++◌,
  ◌==◌, arith, length, map, replicate, if◌then◌else◌, ◌>>=◌,
}
use dfss.Text.{Str, codes}
use dfss.Text.Split.{Boost}
use dfss.Node.{Ptr, null, VirtualRing, get}
use dfss.Ring.Refine.{IsRing-live}
use dfss.Ring.Search.{AllLive}
use dfss.Ring.Shape.{Chain, IsRing}
use dfss.Ring.Spec.{Represents}

-- `if (p != NULL) cout << tag << p->ip_addr`, where the tag starts with a tab.
unfoldable pub tagged : Str → Ptr → VirtualRing → Str
tagged tag p r = if p == null then [] else 9 ∷ (tag ++ r.ip_addr p)

-- The line of the node `s`.
unfoldable pub display_line : Ptr → VirtualRing → Option Str
unfolding tagged
display_line s r = do
  own ← get r.ip_addr s
  n1 ← get r.next1 s
  n2 ← get r.next2 s
  p1 ← get r.prev1 s
  p2 ← get r.prev2 s
  some (
      own
      ++ (tagged (codes "n1:") n1 r
          ++ (tagged (codes "n2:") n2 r
              ++ (tagged (codes "p1:") p1 r ++ tagged (codes "p2:") p2 r))))

-- The loop, with `k` rounds left.
unfoldable pub display_loop : ℕ → Ptr → VirtualRing → Option (List Str)
unfolding display_line
display_loop zero s r = some []
display_loop (suc k) s r = do
  line ← display_line s r
  next ← get r.next1 s
  rest ← display_loop k next r
  some (line ∷ rest)

abbrev pub border : Str
border = replicate 55 b'#'

unfoldable pub display : VirtualRing → Option (List Str)
unfolding display_loop
display r = do lines ← display_loop r.count r.introducer r; some (border ∷ (lines ++ (border ∷ [])))

-- A node, and the nodes behind its pointers that are not NULL.
abbrev pub node_line : VirtualRing → Ptr → Str
node_line r s =
    r.ip_addr s
    ++ (tagged (codes "n1:") (r.next1 s) r
        ++ (tagged (codes "n2:") (r.next2 s) r
            ++ (tagged (codes "p1:") (r.prev1 s) r ++ tagged (codes "p2:") (r.prev2 s) r)))

display_loop-lines :
    (r : VirtualRing) (s stop : Ptr) (ts : List Ptr)
    → AllLive ts
    → Chain r.next1 s ts stop
    → display_loop (length ts) s r ≡ some (map (node_line r) ts)
unfolding display_loop display_line
display_loop-lines r s stop [] live path = refl
display_loop-lines r s stop (x ∷ ts) live (e, path) =
    let live_s : s ≢ null = subst (λ y. y ≢ null) (sym e) live.0 in
    let open_s : (s == null) ≡ false = ground arith in
    let path' : Chain r.next1 (r.next1 s) ts stop =
      subst (λ y. Chain r.next1 (r.next1 y) ts stop) (sym e) path in
    rw (open_s, display_loop-lines r (r.next1 s) stop ts live.1 path')
      (ap (λ y. some (node_line r y ∷ map (node_line r) ts)) e)

walk :
    (r : VirtualRing) (xs : List Ptr) (stop : Ptr)
    → AllLive (r.introducer ∷ xs)
    → Chain r.next1 r.introducer (r.introducer ∷ xs) stop
    → length (r.introducer ∷ xs) ≡ r.count
    → display r ≡ some (border ∷ (map (node_line r) (r.introducer ∷ xs) ++ (border ∷ [])))
unfolding display
walk r xs stop live path counted =
    let run =
      subst (λ k. display_loop k r.introducer r ≡ some (map (node_line r) (r.introducer ∷ xs)))
        counted (display_loop-lines r r.introducer stop (r.introducer ∷ xs) live path) in
    rw run refl

-- On a well-formed ring `display` follows no NULL pointer, and prints one line for each node, in the
-- order of the ring from the introducer on.
pub display-lines :
    (b : Boost) (r : VirtualRing) (ips : List Str) (rep : Represents b r ips)
    → display r ≡ some (border ∷ (map (node_line r) (r.introducer ∷ rep.nodes) ++ (border ∷ [])))
display-lines b r ips rep = ring rep.ring
  where
    live : AllLive (r.introducer ∷ rep.nodes)
    live = IsRing-live r rep.nodes rep.ring

    ring :
        IsRing r rep.nodes
        → display r
          ≡ some (border ∷ (map (node_line r) (r.introducer ∷ rep.nodes) ++ (border ∷ [])))
    ring (inl (e, single)) =
        walk r rep.nodes (r.next1 r.introducer) live
          (subst (λ xs. Chain r.next1 r.introducer (r.introducer ∷ xs) (r.next1 r.introducer))
            (sym e) (refl, refl))
          (omega (arith, single.counted, ap length e))
    ring (inr c) = walk r rep.nodes r.introducer live c.cycle.path (sym c.counted)
