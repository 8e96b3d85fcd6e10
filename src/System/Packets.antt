-- ===== src/System/Packets.antt =====
-- src/client.cpp: the datagrams that the rounds of `heartbeater`, of the introducer and of
-- `update_nodes` send.
use dfss.Base.{
  ◌≤◌, ◌≡◌, refl, sym, ◌∙◌, subst, ◌⊎◌, inl, inr, true, false, some, List, [], ◌∷◌, ◌==◌, length,
  Bool-cases, All, All-append, bind_some, some-inj,
}
use dfss.Text.{Str, str_eq}
use dfss.Text.Map.{map_find, IsSorted}
use dfss.Text.Split.{Boost, has_byte, Free}
use dfss.Node.{Ptr, null, VirtualRing, get}
use dfss.Members.{MemberList, Node, make_message}
use dfss.Members.Beats.{heartbeater_loop, heartbeater_round, introducer_beat, introducer_round}
use dfss.Members.Gossip.{IsPlain}
use dfss.Members.Life.{IsUpdate}
use dfss.Introducer.{write_list}
use dfss.Introducer.Beats.{IsEmpty}
use dfss.Introducer.Joining.{neighbour_set-Neighbours, Neighbours-Free, IsListed}
use dfss.Introducer.Replies.{read_back}
use dfss.Introducer.Updates.{Sends}
use dfss.Ring.Shape.{mem}
use dfss.Ring.Spec.{Represents}
use dfss.System.{Packet, packets, mem_listner_port, update_port, runner, runner_back}

-- An address that can stand in the messages: neither `;` nor `:`.
abbrev pub IsAddress : Str → Type 0
IsAddress ip = (has_byte b';' ip ≡ false) × (has_byte b':' ip ≡ false)

-- A heartbeat is a membership list in order, as `make_message` writes it.
abbrev pub IsHeartbeat : Str → Type 0
IsHeartbeat request = (m : MemberList) × (request ≡ make_message [] m) × IsSorted m × All IsPlain m

-- A heartbeat from an address, or an update for a process other than the introducer's that names
-- at most four neighbours.
abbrev pub IsPacket : Boost → Str → Packet → Type 0
IsPacket b introducer p =
    ((p.port_no ≡ mem_listner_port) × IsAddress p.source × IsHeartbeat p.request)
    ⊎ ((p.port_no ≡ update_port) × IsUpdate b p.request × (str_eq p.host introducer ≡ false))

module _ (b : Boost) (introducer : Str) where
  pub heartbeats-IsPacket :
      (source : Str) (messages : List (Str × Str))
      → IsAddress source
      → All (λ x. IsHeartbeat x.1) messages
      → All (IsPacket b introducer) (packets (runner source) messages)
  heartbeats-IsPacket source [] own h = tt
  heartbeats-IsPacket source ((host, request) ∷ messages) own h =
      (inl (refl, own, h.0), heartbeats-IsPacket source messages own h.1)

heartbeater_loop-messages :
    (m : MemberList) (ips : List Str) (messages : List (Str × Str))
    → heartbeater_loop m ips ≡ some messages
    → All (λ x. x.1 ≡ make_message [] m) messages
unfolding heartbeater_loop
heartbeater_loop-messages m [] messages e =
    subst (All (λ x. x.1 ≡ make_message [] m)) (some-inj e) tt
heartbeater_loop-messages m (ip ∷ ips) messages e =
    let (w, found, e1) = bind_some (map_find ip m) _ e in
    let (rest, run, e2) = bind_some (heartbeater_loop m ips) _ e1 in
    let ih = heartbeater_loop-messages m ips rest run in
    elim (Bool-cases w.failed) [
      | inl dead ↦ subst (All (λ x. x.1 ≡ make_message [] m)) (some-inj (rw dead at e2)) ih
      | inr alive ↦
          subst (All (λ x. x.1 ≡ make_message [] m)) (some-inj (rw alive at e2)) (refl, ih)
    ]

pub heartbeater_round-messages :
    (n : Node) (messages : List (Str × Str))
    → heartbeater_round n ≡ some messages
    → All (λ x. x.1 ≡ make_message [] n.member_list) messages
unfolding heartbeater_round
heartbeater_round-messages n messages e =
    heartbeater_loop-messages n.member_list n.local_neighbour_list messages e

introducer_beat-IsEmpty :
    (m : MemberList) (p : Ptr) (r : VirtualRing) (messages : List (Str × Str))
    → introducer_beat m p r ≡ some messages
    → All IsEmpty messages
unfolding introducer_beat
introducer_beat-IsEmpty m p r messages e = elim (Bool-cases (p == null)) [
  | inl end ↦ subst (All IsEmpty) (some-inj (rw end at e)) tt
  | inr open_p ↦
      let (w, found, e2) = bind_some (map_find (r.ip_addr p) m) _ (rw open_p at e) in
      elim (Bool-cases w.failed) [
        | inl dead ↦ subst (All IsEmpty) (some-inj (rw dead at e2)) tt
        | inr alive ↦ subst (All IsEmpty) (some-inj (rw alive at e2)) (refl, tt)
      ]
]

pub introducer_round-IsEmpty :
    (m : MemberList) (r : VirtualRing) (messages : List (Str × Str))
    → introducer_round m r ≡ some messages
    → All IsEmpty messages
unfolding introducer_round
introducer_round-IsEmpty m r messages e =
    let (p1, at1, e1) = bind_some (get r.next1 r.introducer) _ e in
    let (b1, run1, e2) = bind_some (introducer_beat m p1 r) _ e1 in
    let (p2, at2, e3) = bind_some (get r.next2 r.introducer) _ e2 in
    let (b2, run2, e4) = bind_some (introducer_beat m p2 r) _ e3 in
    let (p3, at3, e5) = bind_some (get r.prev1 r.introducer) _ e4 in
    let (b3, run3, e6) = bind_some (introducer_beat m p3 r) _ e5 in
    let (p4, at4, e7) = bind_some (get r.prev2 r.introducer) _ e6 in
    let (b4, run4, e8) = bind_some (introducer_beat m p4 r) _ e7 in
    subst (All IsEmpty) (some-inj e8) (
      All-append IsEmpty b1 _ (introducer_beat-IsEmpty m p1 r b1 run1) (
        All-append IsEmpty b2 _ (introducer_beat-IsEmpty m p2 r b2 run2) (
          All-append IsEmpty b3 b4 (introducer_beat-IsEmpty m p3 r b3 run3)
            (introducer_beat-IsEmpty m p4 r b4 run4))))

-- The bytes of an update are a list of at most four neighbours.
pub write_list-IsUpdate :
    (b : Boost) (xs : List Str) → Free b';' xs → length xs ≤ 4 → IsUpdate b (write_list [] xs)
write_list-IsUpdate b xs free few = subst (λ l. length l ≤ 4) (sym (read_back b xs free)) few

module _ (b : Boost) (r : VirtualRing) (ips : List Str) (rep : Represents b r ips)
    (listed : All IsListed ips) where
  pub Sends-IsPacket :
      (source first : Str) (ts : List Ptr) (messages : List (Str × Str))
      → All (λ t. mem t (r.introducer ∷ rep.nodes) ≡ true) ts
      → Sends r first ts messages
      → All (IsPacket b first) (packets (runner_back source) messages)
  Sends-IsPacket source first [] messages i e =
      subst (λ l. All (IsPacket b first) (packets (runner_back source) l)) (sym e) tt
  Sends-IsPacket source first (t ∷ ts) messages i (xs, rest, exact, set, e, sends) =
      let (ys, set', nb) = neighbour_set-Neighbours b r ips rep (r.ip_addr t) t i.0 in
      let same : ys ≡ xs = some-inj (sym set' ∙ set) in
      let fits =
        write_list-IsUpdate b ys (Neighbours-Free (r.ip_addr t) ips ys listed nb.others) nb.few in
      let fits' : IsUpdate b (write_list [] xs) =
        subst (λ l. IsUpdate b (write_list [] l)) same fits in
      let ih = Sends-IsPacket source first ts rest i.1 sends in
      elim (Bool-cases (str_eq (r.ip_addr t) first)) [
        | inl own ↦
            subst (λ l. All (IsPacket b first) (packets (runner_back source) l)) (sym (rw own at e))
              ih
        | inr other ↦
            subst (λ l. All (IsPacket b first) (packets (runner_back source) l))
              (sym (rw other at e)) (inr (refl, fits', other), ih)
      ]
