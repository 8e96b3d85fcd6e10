-- ===== src/Examples/System.antt =====
-- The processes of src/client.cpp on a small network: one node joins the introducer.
use dfss.Base.{
  ◌≡◌, refl, sym, ap, ◌∙◌, subst, inl, inr, true, false, some, List, [], ◌∷◌, All, arith, length,
  ==_self, bind_some, some-inj,
}
use dfss.Examples.Addresses.{host5, host20, octet5, octet20}
use dfss.Introducer.{Answer, intro_handler, update_nodes}
use dfss.Introducer.Replies.{IsNeighbourSet}
use dfss.Introducer.Joining.{join-answered}
use dfss.Introducer.Updates.{Sends, update_nodes-Sends}
use dfss.Node.{Ptr}
use dfss.Ring.{octet}
use dfss.Ring.Shape.{mem, IsRing}
use dfss.Ring.Spec.{Represents, addresses, join_spec, length-map}
use dfss.Ring.History.{virtual_ring-Represents}
use dfss.Ring.Splice.{Yields-some}
use dfss.System.{
  Packet, System, packets, runner_back, start_system, blank, joins, updates, happen, join_network,
}
use dfss.System.Converge.{updates-settle}
use dfss.System.Packets.{IsAddress}
use dfss.System.Reach.{Reached, starts, after, reached-Sound, reached-proceeds}
use dfss.System.Settling.{Among, deliver_all}
use dfss.System.Steps.{Sound}
use dfss.Text.{Str, str_eq, codes}
use dfss.Text.Number.{atoi, signed, digits}
use dfss.Text.Order.{set_has}
use dfss.Text.Split.{boost, tokens, push_byte}

abbrev start : System
start = start_system host5

address5 : IsAddress host5
address5 = (refl, refl)

address20 : IsAddress host20
address20 = (refl, refl)

joined : (s : System) × (happen boost (joins host20 100) start ≡ some s)
joined =
    reached-proceeds boost host5 start (joins host20 100) octet5 address5 starts
      (octet20, address20) tt

abbrev network : System
network = joined.0

network-Reached : Reached boost host5 network
network-Reached = after starts (joins host20 100) (octet20, address20) joined.1

reached-Sound_example : Sound boost network
reached-Sound_example = reached-Sound boost host5 network octet5 address5 network-Reached

reached-proceeds_example : (s : System) × (happen boost updates network ≡ some s)
reached-proceeds_example =
    reached-proceeds boost host5 network updates octet5 address5 network-Reached tt tt

abbrev sound : Sound boost network
sound = reached-Sound boost host5 network octet5 address5 network-Reached

-- What the introducer answered.
answered :
    (a : Answer) × (intro_handler boost (codes "JOIN") host20 start.ring ≡ some a)
    × (network.ring ≡ a.ring)
    × (network.updaters ≡ 1)
    × (network.introducer ≡ host5)
unfolding happen join_network start_system
answered =
    let (a, e, out) = bind_some (intro_handler boost (codes "JOIN") host20 start.ring) _ joined.1 in
    let same = some-inj out in
    (
      a,
      e,
      ap (λ s. s.ring) (sym same),
      ap (λ s. s.updaters) (sym same),
      ap (λ s. s.introducer) (sym same),
    )

two : join_spec boost host20 (host5 ∷ []) ≡ host5 ∷ host20 ∷ []
unfolding set_has str_eq octet tokens push_byte atoi signed digits
two = refl

start-Represents : Represents boost start.ring (host5 ∷ [])
unfolding start_system
start-Represents = virtual_ring-Represents boost host5 octet5

network-Represents : Represents boost network.ring (host5 ∷ host20 ∷ [])
network-Represents =
    let (a, e, ring, updaters, introducer) = answered in
    let (a', e', left) = Yields-some (intro_handler boost (codes "JOIN") host20 start.ring) (
      join-answered boost host20 start.ring (host5 ∷ []) blank start-Represents octet20 (refl, tt)
        refl) in
    let same : a'.ring ≡ network.ring = ap (λ x. x.ring) (some-inj (sym e' ∙ e)) ∙ sym ring in
    subst (Represents boost network.ring) two
      (subst (λ r. Represents boost r (join_spec boost host20 (host5 ∷ []))) same left.represents)

abbrev second_or : List Str → Str
second_or (x ∷ y ∷ xs) = y
second_or xs = []

-- The node behind the introducer is the one that joined, and there are two.
behind :
    (xs : List Ptr)
    → IsRing network.ring xs
    → addresses network.ring xs ≡ host5 ∷ host20 ∷ []
    → (network.ring.ip_addr (network.ring.next1 network.ring.introducer) ≡ host20)
      × (network.ring.count ≡ 2)
behind [] ring addrs = absurd (omega (arith, ap length addrs))
behind (x ∷ xs) (inl (e, single)) addrs = absurd (omega (arith, ap length e))
behind (x ∷ xs) (inr c) addrs = (
  ap network.ring.ip_addr c.cycle.path.1.0 ∙ ap second_or addrs,
  omega (arith, c.counted, ap length addrs, length-map network.ring.ip_addr xs),
)

at20 :
    (network.ring.ip_addr (network.ring.next1 network.ring.introducer) ≡ host20)
    × (network.ring.count ≡ 2)
at20 = behind network-Represents.nodes network-Represents.ring network-Represents.addrs

in_ring :
    (nodes : List Ptr)
    → IsRing network.ring nodes
    → mem (network.ring.next1 network.ring.introducer) (network.ring.introducer ∷ nodes) ≡ true
in_ring nodes (inl (e, single)) = absurd (omega (arith, single.counted, at20.1))
in_ring nodes (inr c) =
    c.cycle.linked.next_mem network.ring.introducer
      (ground (arith, ==_self network.ring.introducer))

sent :
    (messages : List (Str × Str)) × (update_nodes network.ring ≡ some messages)
    × Sends network.ring
        (network.ring.ip_addr network.ring.introducer)
        (network.ring.introducer ∷ network-Represents.nodes)
        messages
sent =
    Yields-some (update_nodes network.ring)
      (update_nodes-Sends boost network.ring (host5 ∷ host20 ∷ []) network-Represents)

abbrev round : List Packet
round = packets (runner_back network.introducer) sent.0

All-Among_self :
    (ps qs : List Packet) → ((p : Packet) → Among p qs → Among p ps) → All (λ p. Among p ps) qs
All-Among_self ps [] h = tt
All-Among_self ps (q ∷ qs) h = (h q (inl refl), All-Among_self ps qs (λ p a. h p (inr a)))

not_introducer :
    str_eq (network.ring.ip_addr (network.ring.next1 network.ring.introducer)) network.introducer
    ≡ false
unfolding str_eq
not_introducer = rw (at20.0, answered.4) refl

updates-settle_example :
    (s1 s2 : System) × (xs : List Str) × (happen boost updates network ≡ some s1)
    × (deliver_all boost 101 round s1 ≡ some s2)
    × IsNeighbourSet network.ring (network.ring.next1 network.ring.introducer) xs
    × ((s2.nodes
          (network.ring.ip_addr (network.ring.next1 network.ring.introducer))).local_neighbour_list
        ≡ xs)
updates-settle_example =
    updates-settle boost host5 network octet5 address5 network-Reached 0 101 sent.0 round
      (network.ring.next1 network.ring.introducer) answered.3 sent.1
      (All-Among_self round round (λ p a. a)) (All-Among_self round round (λ p a. a))
      (in_ring sound.ring.nodes sound.ring.ring) not_introducer
