-- ===== src/System/Converge.antt =====
-- src/client.cpp: after a JOIN or a LEAVE, `update_nodes` on the ring and the processes that it
-- informs.
use dfss.Base.{
  ℕ, suc, ◌≡◌, ◌≢◌, refl, sym, ap, ◌∙◌, subst, ◌⊎◌, inl, inr, true, false, some, List, [], ◌∷◌,
  ◌==◌, arith, Bool-cases, All, some-inj, map,
}
use dfss.Text.{Str, str_eq, eq_of_str_eq}
use dfss.Text.Split.{Boost}
use dfss.Node.{Ptr, null, VirtualRing}
use dfss.Members.Known.{All-map}
use dfss.Introducer.{neighbour_set, write_list, update_nodes}
use dfss.Introducer.Joining.{neighbour_set-Neighbours, Neighbours-Free}
use dfss.Introducer.Replies.{read_back, IsNeighbourSet, neighbour_set-IsNeighbourSet}
use dfss.Introducer.Updates.{Sends, update_nodes-Sends}
use dfss.Ring.Refine.{IsRing-live}
use dfss.Ring.Search.{HasOctet}
use dfss.Ring.Shape.{mem, mem-All, All-of-mem}
use dfss.Ring.Splice.{Yields-some}
use dfss.Ring.Unique.{IsUnique, IsUnique-node}
use dfss.System.{Packet, System, packets, post, updates, happen, run_updater, runner_back}
use dfss.System.Packets.{IsAddress}
use dfss.System.Reach.{Reached, reached-Sound}
use dfss.System.Settling.{Among, Reaches, IsUpdateOf, deliver_all, deliver_all-Holds}
use dfss.System.Steps.{own_address}

module _ (r : VirtualRing) (first source : Str) (nodes : List Ptr) (t : Ptr) (xs : List Str)
    (unique : IsUnique (map r.ip_addr nodes)) (i : mem t nodes ≡ true)
    (set : neighbour_set (r.ip_addr t) t r ≡ some xs)
    (other : str_eq (r.ip_addr t) first ≡ false) where
  Sends-IsUpdateOf :
      (ts : List Ptr) (messages : List (Str × Str))
      → All (λ p. mem p nodes ≡ true) ts
      → Sends r first ts messages
      → All
          (IsUpdateOf first (r.ip_addr t) (write_list [] xs))
          (packets (runner_back source) messages)
  Sends-IsUpdateOf [] messages j e =
      subst
        (λ l.
          All (IsUpdateOf first (r.ip_addr t) (write_list [] xs)) (packets (runner_back source) l))
        (sym e) tt
  Sends-IsUpdateOf (p ∷ ts) messages j (ys, rest, exact, set_p, e, sends) =
      let ih = Sends-IsUpdateOf ts rest j.1 sends in
      elim (Bool-cases (str_eq (r.ip_addr p) first)) [
        | inl own ↦
            subst
              (λ l.
                All (IsUpdateOf first (r.ip_addr t) (write_list [] xs))
                  (packets (runner_back source) l))
              (sym (rw own at e)) ih
        | inr for_p ↦
            subst
              (λ l.
                All (IsUpdateOf first (r.ip_addr t) (write_list [] xs))
                  (packets (runner_back source) l))
              (sym (rw for_p at e)) ((refl, for_p, same p ys j.0 set_p), ih)
      ]
    where
      same :
          (p : Ptr) (ys : List Str)
          → mem p nodes ≡ true
          → neighbour_set (r.ip_addr p) p r ≡ some ys
          → (str_eq (r.ip_addr p) (r.ip_addr t) ≡ false) ⊎ (write_list [] ys ≡ write_list [] xs)
      same p ys j set_p = elim (Bool-cases (str_eq (r.ip_addr p) (r.ip_addr t))) [
        | inr apart ↦ inl apart
        | inl e ↦
            let p_is_t : p ≡ t =
              IsUnique-node r.ip_addr nodes p t unique j i
                (eq_of_str_eq (r.ip_addr p) (r.ip_addr t) e) in
            inr (
              ap (write_list [])
                (some-inj (sym set_p ∙ ap (λ q. neighbour_set (r.ip_addr q) q r) p_is_t ∙ set)))
      ]

  Sends-Reaches :
      (ts : List Ptr) (messages : List (Str × Str))
      → mem t ts ≡ true
      → Sends r first ts messages
      → Reaches (r.ip_addr t) (packets (runner_back source) messages)
  Sends-Reaches [] messages j e = absurd (clash j)
    where
      clash : false ≡ true → ⊥
      clash h = cc
  Sends-Reaches (p ∷ ts) messages j (ys, rest, exact, set_p, e, sends) =
      elim (Bool-cases (t == p)) [
        | inl at_p ↦
            let same : t ≡ p = ground arith in
            let for_p : str_eq (r.ip_addr p) first ≡ false =
              subst (λ q. str_eq (r.ip_addr q) first ≡ false) same other in
            subst (λ l. Reaches (r.ip_addr t) (packets (runner_back source) l))
              (sym (rw for_p at e)) (_, inl refl, ap r.ip_addr (sym same))
        | inr later ↦
            let (q, among, at_t) = Sends-Reaches ts rest (ground arith) sends in
            elim (Bool-cases (str_eq (r.ip_addr p) first)) [
              | inl own ↦
                  subst (λ l. Reaches (r.ip_addr t) (packets (runner_back source) l))
                    (sym (rw own at e)) (q, among, at_t)
              | inr for_p ↦
                  subst (λ l. Reaches (r.ip_addr t) (packets (runner_back source) l))
                    (sym (rw for_p at e)) (q, inr among, at_t)
            ]
      ]

All-Among : (P : Packet → Type 0) (xs : List Packet) (p : Packet) → All P xs → Among p xs → P p
All-Among P [] p h a = absurd a
All-Among P (x ∷ xs) p h (inl e) = subst P (sym e) h.0
All-Among P (x ∷ xs) p h (inr a) = All-Among P xs p h.1 a

Reaches-all :
    (host : Str) (round ps : List Packet)
    → All (λ p. Among p ps) round
    → Reaches host round
    → Reaches host ps
Reaches-all host round ps h (p, a, e) = (p, All-Among (λ q. Among q ps) round p h a, e)

-- In a state that the network reaches, let a thread of `update_nodes` run, and let `ps` be its
-- datagrams as they then arrive: in any order, each of them once or more often, and none of other
-- runs. They are served without a fault; after them, each process of the ring but the
-- introducer's has as neighbours exactly the addresses behind the four pointers of its node, each
-- once and in order, without those at NULL and its own.
pub updates-settle :
    (b : Boost) (introducer : Str) (s : System) (octet : HasOctet b introducer)
    (own : IsAddress introducer) (r : Reached b introducer s) (k now : ℕ)
    (messages : List (Str × Str)) (ps : List Packet) (t : Ptr)
    → s.updaters ≡ suc k
    → update_nodes s.ring ≡ some messages
    → All (λ p. Among p (packets (runner_back s.introducer) messages)) ps
    → All (λ p. Among p ps) (packets (runner_back s.introducer) messages)
    → mem t (s.ring.introducer ∷ (reached-Sound b introducer s octet own r).ring.nodes) ≡ true
    → str_eq (s.ring.ip_addr t) s.introducer ≡ false
    → (s1 s2 : System) × (xs : List Str) × (happen b updates s ≡ some s1)
      × (deliver_all b now ps s1 ≡ some s2)
      × IsNeighbourSet s.ring t xs
      × ((s2.nodes (s.ring.ip_addr t)).local_neighbour_list ≡ xs)
unfolding happen run_updater
updates-settle b introducer s octet own r k now messages ps t pending sent these all i other =
    let h = reached-Sound b introducer s octet own r in
    let nodes = s.ring.introducer ∷ h.ring.nodes in
    let ips = s.introducer ∷ h.rest in
    let host = s.ring.ip_addr t in
    let s1 = post (runner_back s.introducer) messages (record s { updaters = k }) in
    let (messages', run, sends') =
      Yields-some (update_nodes s.ring) (update_nodes-Sends b s.ring ips h.ring) in
    let sends : Sends s.ring s.introducer nodes messages =
      subst (λ first. Sends s.ring first nodes messages) (own_address b s h)
        (subst (Sends s.ring (s.ring.ip_addr s.ring.introducer) nodes) (some-inj (sym run ∙ sent))
          sends') in
    let (xs, set, nb) = neighbour_set-Neighbours b s.ring ips h.ring host t i in
    let (xs', set', exact') =
      neighbour_set-IsNeighbourSet t s.ring
        (mem-All (λ p. p ≢ null) nodes (IsRing-live s.ring h.ring.nodes h.ring.ring) t i) in
    let exact : IsNeighbourSet s.ring t xs =
      subst (IsNeighbourSet s.ring t) (some-inj (sym set' ∙ set)) exact' in
    let unique : IsUnique (map s.ring.ip_addr nodes) = subst IsUnique (sym h.ring.addrs) h.unique in
    let round = packets (runner_back s.introducer) messages in
    let good =
      Sends-IsUpdateOf s.ring s.introducer s.introducer nodes t xs unique i set other nodes messages
        (All-of-mem nodes (λ p j. j)) sends in
    let reaches =
      Sends-Reaches s.ring s.introducer s.introducer nodes t xs unique i set other nodes messages i
        sends in
    let Good = IsUpdateOf s.introducer host (write_list [] xs) in
    let (s2, served, holds) =
      deliver_all-Holds b now s.introducer host (write_list [] xs) ps s1 refl
        (All-map ps (λ p a. All-Among Good round p good a) these)
        (inr (Reaches-all host round ps all reaches)) in
    let free = Neighbours-Free host ips xs (All-map ips (λ x p. p.0) h.plain) nb.others in
    (s1, s2, xs, rw (pending, run_updater, sent) refl, served, exact, holds ∙ read_back b xs free)
