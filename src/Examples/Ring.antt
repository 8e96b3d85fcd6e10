-- ===== src/Examples/Ring.antt =====
-- The ring of src/virtual_ring.cpp and the introducer of src/client.cpp on a small network.
use dfss.Base.{
  ◌≡◌, refl, sym, ap, subst, inl, inr, true, false, some, List, [], ◌∷◌, All, arith, length,
  ==_self, ◌∙◌,
}
use dfss.Ring.Shape.{mem, IsRing}
use dfss.Examples.Addresses.{host5, host20, host30, host40, octet5, octet20, octet30, octet40}
use dfss.Introducer.Joining.{Joins, join-answered}
use dfss.Introducer.{intro_handler, neighbour_set}
use dfss.Introducer.Mutual.{neighbour_set-mutual}
use dfss.Members.{Node}
use dfss.Node.{Ptr, null, VirtualRing, virtual_ring, update}
use dfss.Ring.{insert, leave, octet}
use dfss.Ring.History.{Request, joins, serve_all, serve_all_spec, Admissible, history-refines}
use dfss.Ring.Refine.{Inserted, insert-refines}
use dfss.Ring.RefineLeave.{Leaves, leave-refines, leave_introducer-refines}
use dfss.Ring.Spec.{Represents, addresses}
use dfss.Ring.Splice.{Yields, Yields-some}
use dfss.Text.{Str, str_eq, codes}
use dfss.Text.Number.{atoi, signed, digits}
use dfss.Text.Order.{set_has}
use dfss.Text.Split.{boost, tokens, push_byte}

abbrev pub requests : List Request
requests = joins host30 ∷ joins host20 ∷ []

requests-Admissible : All (Admissible boost host5) requests
requests-Admissible = (octet30, (octet20, tt))

history-refines_example :
    Yields
      (λ r. Represents boost r (serve_all_spec boost requests (host5 ∷ [])))
      (serve_all boost requests (virtual_ring host5))
history-refines_example = history-refines boost host5 requests octet5 requests-Admissible

spec_example : serve_all_spec boost requests (host5 ∷ []) ≡ host5 ∷ host20 ∷ host30 ∷ []
unfolding set_has str_eq octet tokens push_byte atoi signed digits
spec_example = refl

-- The ring after those requests.
pub reached :
    (r : VirtualRing) × (serve_all boost requests (virtual_ring host5) ≡ some r)
    × Represents boost r (serve_all_spec boost requests (host5 ∷ []))
reached = Yields-some (serve_all boost requests (virtual_ring host5)) history-refines_example

abbrev pub ring3 : VirtualRing
ring3 = reached.0

pub ring3-Represents : Represents boost ring3 (host5 ∷ host20 ∷ host30 ∷ [])
ring3-Represents = subst (Represents boost ring3) spec_example reached.2

abbrev head_or : List Str → Str
head_or [] = []
head_or (x ∷ xs) = x

pub own : ring3.ip_addr ring3.introducer ≡ host5
own = ap head_or ring3-Represents.addrs

insert-refines_example :
    Yields (Inserted boost host40 (host5 ∷ host20 ∷ host30 ∷ [])) (insert boost host40 ring3)
insert-refines_example =
    insert-refines boost host40 ring3 (host5 ∷ host20 ∷ host30 ∷ []) ring3-Represents octet40

pub not_own :
    (ip : Str) → str_eq ip host5 ≡ false → str_eq ip (ring3.ip_addr ring3.introducer) ≡ false
not_own ip other = subst (λ a. str_eq ip a ≡ false) (sym own) other

pub apart20 : str_eq host20 host5 ≡ false
unfolding str_eq
apart20 = refl

self5 : str_eq host5 host5 ≡ true
unfolding str_eq
self5 = refl

leave-refines_example :
    Yields (Leaves boost host20 ring3 (host5 ∷ host20 ∷ host30 ∷ [])) (leave host20 ring3)
leave-refines_example =
    leave-refines boost host20 ring3 (host5 ∷ host20 ∷ host30 ∷ []) ring3-Represents
      (not_own host20 apart20)

leave_introducer-refines_example :
    Yields
      (λ r. Represents boost r (host20 ∷ host30 ∷ []) × (r.introducer_exists ≡ 0))
      (leave host5 ring3)
leave_introducer-refines_example =
    leave_introducer-refines boost host5 ring3 host5 (host20 ∷ host30 ∷ []) ring3-Represents
      (subst (λ a. str_eq host5 a ≡ true) (sym own) self5) (omega arith)

-- The ring of the introducer and one other node.
joined2 :
    (r : VirtualRing) × (serve_all boost (joins host20 ∷ []) (virtual_ring host5) ≡ some r)
    × Represents boost r (serve_all_spec boost (joins host20 ∷ []) (host5 ∷ []))
joined2 =
    Yields-some (serve_all boost (joins host20 ∷ []) (virtual_ring host5))
      (history-refines boost host5 (joins host20 ∷ []) octet5 (octet20, tt))

spec2 : serve_all_spec boost (joins host20 ∷ []) (host5 ∷ []) ≡ host5 ∷ host20 ∷ []
unfolding set_has str_eq octet tokens push_byte atoi signed digits
spec2 = refl

joined2-Represents : Represents boost joined2.0 (host5 ∷ host20 ∷ [])
joined2-Represents = subst (Represents boost joined2.0) spec2 joined2.2

own2 : joined2.0.ip_addr joined2.0.introducer ≡ host5
own2 = ap head_or joined2-Represents.addrs

abbrev second_or : List Str → Str
second_or (x ∷ y ∷ xs) = y
second_or xs = []

-- The node behind the introducer is the one at `host20`.
second :
    (xs : List Ptr)
    → IsRing ring3 xs
    → addresses ring3 xs ≡ host5 ∷ host20 ∷ host30 ∷ []
    → (mem (ring3.next1 ring3.introducer) (ring3.introducer ∷ xs) ≡ true)
      × (ring3.ip_addr (ring3.next1 ring3.introducer) ≡ host20)
second [] ring addrs = absurd (omega (arith, ap length addrs))
second (x ∷ xs) (inl (e, single)) addrs = absurd (omega (arith, ap length e))
second (x ∷ xs) (inr c) addrs = (
  c.cycle.linked.next_mem ring3.introducer (ground (arith, ==_self ring3.introducer)),
  ap ring3.ip_addr c.cycle.path.1.0 ∙ ap second_or addrs,
)

pub at20 :
    (mem (ring3.next1 ring3.introducer) (ring3.introducer ∷ ring3-Represents.nodes) ≡ true)
    × (ring3.ip_addr (ring3.next1 ring3.introducer) ≡ host20)
at20 = second ring3-Represents.nodes ring3-Represents.ring ring3-Represents.addrs

-- The introducer watches the node behind it, and is in the list of that node.
neighbour_set-mutual_example :
    (ys : List Str) × (neighbour_set
        (ring3.ip_addr (ring3.next1 ring3.introducer))
        (ring3.next1 ring3.introducer)
        ring3
      ≡ some ys)
    × (set_has (ring3.ip_addr ring3.introducer) ys ≡ true)
neighbour_set-mutual_example =
    neighbour_set-mutual boost ring3 (host5 ∷ host20 ∷ host30 ∷ []) ring3-Represents
      ring3.introducer (ring3.next1 ring3.introducer) (ground (arith, ==_self ring3.introducer))
      at20.0
      (subst (λ a. str_eq a (ring3.ip_addr ring3.introducer) ≡ false) (sym at20.1)
        (not_own host20 apart20))
      (omega arith) (inl refl)

-- Two nodes that point at one another.
abbrev pair : VirtualRing
pair = record {
  introducer = 1;
  count = 2;
  introducer_exists = 1;
  ip_addr = update (update (λ _. []) 1 host5) 2 host20;
  next1 = update (update (λ _. null) 1 2) 2 1;
  next2 = λ _. null;
  prev1 = update (update (λ _. null) 1 2) 2 1;
  prev2 = λ _. null;
  fresh = 3;
}

abbrev node : Node
node = record { member_list = []; local_neighbour_list = []; master = [] }

join-answered_example :
    Yields
      (Joins boost host40 (host5 ∷ host20 ∷ host30 ∷ []) node)
      (intro_handler boost (codes "JOIN") host40 ring3)
join-answered_example =
    join-answered boost host40 ring3 (host5 ∷ host20 ∷ host30 ∷ []) node ring3-Represents octet40
      (refl, (refl, (refl, tt))) refl
