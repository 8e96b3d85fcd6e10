-- ===== src/Introducer/Joining.antt =====
-- src/client.cpp: a JOIN, from `intro_handler` to `contact_introducer` of the node that joins.
use dfss.Base.{
  ◌≤◌, ◌≡◌, refl, sym, ◌∙◌, subst, ◌≢◌, ◌⊎◌, inl, inr, Bool, true, false, ◌||◌, some, List, [], ◌∷◌,
  ◌++◌, map, arith, length, All, Bool-cases,
}
use dfss.Text.{Str, str_eq, str_eq_refl, codes}
use dfss.Text.Order.{All-of-set_has, All-at-set_has, set_has, IsRising}
use dfss.Text.Split.{Boost, Free, has_byte}
use dfss.Node.{Ptr, null, VirtualRing}
use dfss.Introducer.{Answer, neighbour_set, intro_handler}
use dfss.Introducer.Near.{near, names-Within, length-neighbour_set}
use dfss.Introducer.Replies.{names, neighbour_set_lem, update-roundtrip}
use dfss.Members.{Node, contact_introducer}
use dfss.Members.Life.{IsUpdate}
use dfss.Ring.{insert}
use dfss.Ring.Display.{border, node_line, display-lines}
use dfss.Ring.Refine.{insert-refines, IsRing-live}
use dfss.Ring.Search.{HasOctet, number}
use dfss.Ring.Shape.{mem, mem-All}
use dfss.Ring.Spec.{join_spec, Represents, All-slots}
use dfss.Ring.Splice.{Yields, Yields-some}

-- An address as it can stand in a list of addresses.
abbrev pub IsListed : Str → Type 0
IsListed ip = has_byte b';' ip ≡ false

-- The list of neighbours: addresses of the ring, each once and in order, and not the node's own.
pub record Neighbours (ip : Str) (ips : List Str) (xs : List Str) : Type 0 where
  pub rising : IsRising xs
  pub few : length xs ≤ 4
  pub others : All (λ x. (set_has x ips ≡ true) × (str_eq ip x ≡ false)) xs

or4 :
    (w x y z : Bool)
    → (w || (x || (y || z))) ≡ true
    → (z ≡ true) ⊎ ((y ≡ true) ⊎ ((x ≡ true) ⊎ (w ≡ true)))
or4 w x y z h = ground arith

pub neighbour_set-Neighbours :
    (b : Boost) (r : VirtualRing) (ips : List Str) (rep : Represents b r ips) (ip : Str) (t : Ptr)
    → mem t (r.introducer ∷ rep.nodes) ≡ true
    → (xs : List Str) × (neighbour_set ip t r ≡ some xs) × Neighbours ip ips xs
neighbour_set-Neighbours b r ips rep ip t i =
    let live : t ≢ null =
      mem-All (λ p. p ≢ null) (r.introducer ∷ rep.nodes) (IsRing-live r rep.nodes rep.ring) t i in
    let (n1, n2, p1, p2) = near r rep.nodes t rep.ring i in
    let (xs, e, rising, has) = neighbour_set_lem ip t r live in
    (
      xs,
      e,
      record {
        rising = rising;
        few = length-neighbour_set ip t r xs live e;
        others =
            All-of-set_has (λ x. (set_has x ips ≡ true) × (str_eq ip x ≡ false)) xs
              (λ x h.
                subst (λ l. (set_has x l ≡ true) × (str_eq ip x ≡ false)) rep.addrs
                  (elim (or4 (names ip r x (r.prev2 t)) (names ip r x (r.prev1 t))
                    (names ip r x (r.next2 t)) (names ip r x (r.next1 t)) (sym (has x) ∙ h)) [
                      | inl e1 ↦ names-Within ip r rep.nodes x (r.next1 t) n1 e1
                      | inr (inl e2) ↦ names-Within ip r rep.nodes x (r.next2 t) n2 e2
                      | inr (inr (inl e3)) ↦ names-Within ip r rep.nodes x (r.prev1 t) p1 e3
                      | inr (inr (inr e4)) ↦ names-Within ip r rep.nodes x (r.prev2 t) p2 e4
                    ]));
      },
    )

pub Neighbours-Free :
    (ip : Str) (ips xs : List Str)
    → All IsListed ips
    → All (λ x. (set_has x ips ≡ true) × (str_eq ip x ≡ false)) xs
    → Free b';' xs
Neighbours-Free ip ips [] listed others = tt
Neighbours-Free ip ips (x ∷ xs) listed others =
    (All-at-set_has IsListed x ips listed others.0.0, Neighbours-Free ip ips xs listed others.1)

pub join_spec-All :
    (P : Str → Type 0) (b : Boost) (ip : Str) (ips : List Str)
    → P ip
    → All P ips
    → All P (join_spec b ip ips)
join_spec-All P b ip [] new all = tt
join_spec-All P b ip (first ∷ rest) new all = elim (Bool-cases (set_has ip (first ∷ rest))) [
  | inl h ↦ rw h all
  | inr h ↦ rw h (all.0, All-slots P (number b) (number b ip) ip rest new all.1)
]

-- What the joining node and the ring are left with.
pub record Joins (b : Boost) (ip : Str) (ips : List Str) (client : Node) (a : Answer) : Type 0 where
  pub represents : Represents b a.ring (join_spec b ip ips)
  pub printed :
      a.printed
      ≡ border ∷ (map (node_line a.ring) (a.ring.introducer ∷ represents.nodes) ++ (border ∷ []))
  pub updates : a.updates ≡ true
  pub fits : IsUpdate b a.reply
  pub neighbours :
      Neighbours ip (join_spec b ip ips) (contact_introducer b a.reply client).local_neighbour_list
  pub members : (contact_introducer b a.reply client).member_list ≡ client.member_list

-- The ring after a JOIN, whatever the addresses hold.
pub join-ring :
    (b : Boost) (ip : Str) (r : VirtualRing) (ips : List Str)
    → Represents b r ips
    → HasOctet b ip
    → Yields (λ a. Represents b a.ring (join_spec b ip ips)) (intro_handler b (codes "JOIN") ip r)
unfolding intro_handler
join-ring b ip r ips rep octet =
    let (out, e, ins) = Yields-some (insert b ip r) (insert-refines b ip r ips rep octet) in
    let (xs, set, nb) =
      neighbour_set-Neighbours b out.1 (join_spec b ip ips) ins.represents ip out.0 ins.node in
    rw
      (
        str_eq_refl (codes "JOIN"),
        e,
        display-lines b out.1 (join_spec b ip ips) ins.represents,
        set,
      )
      ins.represents

-- On a well-formed ring with addresses without `;`, a JOIN from an address with an octet and without
-- `;` is handled without a fault: the ring is well-formed and holds the address in its slot, the
-- ring is printed, a line for each of its nodes in order; the other nodes are to be updated, and the client that reads the reply has as neighbours at most four
-- addresses of the ring, each once and in order and not its own; its membership list is unchanged.
pub join-answered :
    (b : Boost) (ip : Str) (r : VirtualRing) (ips : List Str) (client : Node)
    → Represents b r ips
    → HasOctet b ip
    → All IsListed ips
    → IsListed ip
    → Yields (Joins b ip ips client) (intro_handler b (codes "JOIN") ip r)
unfolding intro_handler contact_introducer
join-answered b ip r ips client rep octet listed own =
    let (out, e, ins) = Yields-some (insert b ip r) (insert-refines b ip r ips rep octet) in
    let (xs, set, nb) =
      neighbour_set-Neighbours b out.1 (join_spec b ip ips) ins.represents ip out.0 ins.node in
    let free =
      Neighbours-Free ip (join_spec b ip ips) xs (join_spec-All IsListed b ip ips own listed)
        nb.others in
    let (updated, read, same) = update-roundtrip b xs client free in
    rw
      (
        str_eq_refl (codes "JOIN"),
        e,
        display-lines b out.1 (join_spec b ip ips) ins.represents,
        set,
      )
      (record {
        represents = ins.represents;
        printed = refl;
        updates = refl;
        fits = subst (λ l. length l ≤ 4) (sym read) nb.few;
        neighbours = subst (Neighbours ip (join_spec b ip ips)) (sym read) nb;
        members = refl;
      })
