-- ===== src/Members/Detection.antt =====
-- src/client.cpp, `failure_detector`: its round, member by member.
use mathlib.Core.Option
use dfss.Base.{
  ℕ, ◌+◌, ◌-◌, ◌<◌, ◌≡◌, refl, sym, ap, ◌∙◌, inl, inr, Bool, true, false, not, ◌&&◌, ◌||◌, All,
  Option, none, some, List, [], ◌∷◌, arith, leb, if◌then◌else◌, Bool-cases, Option-cases,
}
use dfss.Text.{Str, str_eq, str_eq_iff, str_eq_refl}
use dfss.Text.Map.{map_find, IsSorted, find-insert, find-modify, map_modify-IsSorted}
use dfss.Text.Order.{set_has}
use dfss.Members.{
  MemberEntry, MemberList, member_entry, Node, detect, failure_detector_round, heard_from,
  heartbeat_handler, make_message, add_to_local_neighbour_list,
}
use dfss.Members.Gossip.{IsPlain, heartbeat-merges}
use dfss.Members.Learn.{gossip}
use dfss.Ring.Splice.{Yields, Yields-some}
use dfss.Text.Split.{Boost}

-- The entry afterwards: failed, if the member is watched and was silent for two seconds.
abbrev pub judged : Bool → ℕ → MemberEntry → MemberEntry
judged watched now e =
    if watched && leb 2 (now - e.time_stamp) then record e { failed = true } else e

abbrev mark : ℕ → MemberEntry → MemberEntry
mark now e = if leb 2 (now - e.time_stamp) then record e { failed = true } else e

find-detect :
    (ips : List Str) (now : ℕ) (m : MemberList) (i : Str)
    → map_find i (detect ips now m) ≡ Option.map (judged (set_has i ips) now) (map_find i m)
unfolding detect set_has
find-detect [] now m i = elim (Option-cases (map_find i m)) [
  | inl e ↦ rw e refl
  | inr (v, e) ↦ rw e refl
]
find-detect (ip ∷ ips) now m i =
    find-detect ips now _ i
    ∙ ap (Option.map (judged (set_has i ips) now)) (find-modify (mark now) ip i m)
    ∙ elim (Bool-cases (str_eq i ip)) [
      | inl same ↦
          let e : i ≡ ip = (str_eq_iff i ip).0 same in
          rw (same, ← e) (twice (set_has i ips) (map_find i m))
      | inr other ↦ rw other refl
    ]
  where
    twice :
        (w : Bool) (o : Option MemberEntry)
        → Option.map (judged w now) (Option.map (mark now) o) ≡ Option.map (judged true now) o
    twice w none = refl
    twice w (some e) = ground arith

detect-IsSorted :
    (ips : List Str) (now : ℕ) (m : MemberList) → IsSorted m → IsSorted (detect ips now m)
unfolding detect
detect-IsSorted [] now m s = s
detect-IsSorted (ip ∷ ips) now m s =
    detect-IsSorted ips now _ (map_modify-IsSorted (mark now) ip m s)

-- On a sorted list, a round of `failure_detector` leaves the list sorted, marks exactly the
-- neighbours whose last sign of life is at least two seconds old, and changes no other member, no
-- neighbour and not the master.
pub detector-judges :
    (now : ℕ) (n : Node)
    → IsSorted n.member_list
    → IsSorted (failure_detector_round now n).member_list
      × ((i : Str)
          → map_find i (failure_detector_round now n).member_list
            ≡ Option.map (judged (set_has i n.local_neighbour_list) now) (map_find i n.member_list))
      × ((failure_detector_round now n).local_neighbour_list ≡ n.local_neighbour_list)
      × ((failure_detector_round now n).master ≡ n.master)
unfolding failure_detector_round
detector-judges now n s = (
  detect-IsSorted n.local_neighbour_list now n.member_list s,
  λ i. find-detect n.local_neighbour_list now n.member_list i,
  refl,
  refl,
)

abbrev Fresh : Str → ℕ → MemberList → Type 0
Fresh ip now m =
    (e : MemberEntry) × (map_find ip m ≡ some e) × (e.failed ≡ false) × (e.time_stamp ≡ now)

pub add_to_local-members :
    (ip : Str) (n : Node) → (add_to_local_neighbour_list ip n).member_list ≡ n.member_list
unfolding add_to_local_neighbour_list
add_to_local-members ip n = ground arith

heard_from-Fresh :
    (ip : Str) (now : ℕ) (n : Node)
    → IsSorted n.member_list
    → Fresh ip now (heard_from ip now n).member_list
unfolding heard_from
heard_from-Fresh ip now n s = elim (Option-cases (map_find ip n.member_list)) [
  | inl e ↦ (
    member_entry ip now,
    rw (e, heard_from)
        (find-insert ip ip (member_entry ip now) n.member_list s ∙ rw (str_eq_refl ip, e) refl),
    refl,
    refl,
  )
  | inr (v, e) ↦ (
    record v { time_stamp = now; failed = false },
    rw (e, heard_from)
        (ap (map_find ip) (add_to_local-members ip _)
          ∙ find-modify (λ w. record w { time_stamp = now; failed = false }) ip ip n.member_list
          ∙ rw (str_eq_refl ip, e) refl),
    refl,
    refl,
  )
]

-- Is there an entry that says failed?
abbrev pub reported : Option MemberEntry → Bool
reported none = false
reported (some p) = p.failed

gossip-reported :
    (now : ℕ) (neighbour : Bool) (ip : Str) (o : Option MemberEntry) (e : MemberEntry)
    → e.failed ≡ false
    → (e' : MemberEntry) × (gossip now neighbour ip o (some e) ≡ some e')
      × (e'.failed ≡ (reported o && not neighbour))
      × (e'.time_stamp ≡ e.time_stamp)
gossip-reported now neighbour ip none e alive = (e, refl, alive, refl)
gossip-reported now neighbour ip (some p) e alive =
    (record e { failed = p.failed && (e.failed || not neighbour) }, refl, rw alive refl, refl)

-- A node handles a heartbeat of `ip` at `now`, with the message that `make_message` writes for a
-- sorted list `peer` of addresses without `:` and `;`, on a sorted list of its own. Then a round of
-- the failure detector less than two seconds later leaves `ip` in the list with the time `now`;
-- and it counts as failed exactly if the message itself reports it so, and the node does not have
-- it among its neighbours.
pub heard-not-failed :
    (b : Boost) (peer : MemberList) (ip : Str) (now later : ℕ) (n : Node)
    → All IsPlain peer
    → IsSorted peer
    → IsSorted n.member_list
    → later < now + 2
    → Yields
        (λ out.
          (e : MemberEntry) × (map_find ip (failure_detector_round later out.0).member_list
            ≡ some e)
          × (e.failed
              ≡ (reported (map_find ip peer) && not (set_has ip out.0.local_neighbour_list)))
          × (e.time_stamp ≡ now))
        (heartbeat_handler b (make_message [] peer) ip now n)
unfolding failure_detector_round
heard-not-failed b peer ip now later n plain sp s soon =
    let (out, run, m) =
      Yields-some (heartbeat_handler b (make_message [] peer) ip now n)
        (heartbeat-merges b peer ip now n plain sp s) in
    let heard = heard_from ip now n in
    let nb = heard.local_neighbour_list in
    let (e, found, alive, stamp) = heard_from-Fresh ip now n s in
    let (e', learned, judged_by, kept) =
      gossip-reported now (set_has ip nb) ip (map_find ip peer) e alive in
    let member : map_find ip out.0.member_list ≡ some e' =
      m.members ip ∙ ap (gossip now (set_has ip nb) ip (map_find ip peer)) found ∙ learned in
    let judge = find-detect out.0.local_neighbour_list later out.0.member_list ip in
    let recent : leb 2 (later - e'.time_stamp) ≡ false = ground (arith, kept, stamp) in
    rw run (
      e',
      judge ∙ rw member (ground arith),
      judged_by ∙ ap (λ l. reported (map_find ip peer) && not (set_has ip l)) (sym m.neighbours),
      kept ∙ stamp,
    )
