-- ===== src/System/Sound.antt =====
-- src/client.cpp: the lists of one process, whatever reaches it.
use dfss.Base.{ℕ, ◌≡◌, refl, sym, subst, some, List, [], ◌∷◌, arith, Option-cases, inl, inr, All}
use dfss.Text.{Str, codes}
use dfss.Text.Map.{map_find, map_modify}
use dfss.Text.Entries.{insert-All, modify-All}
use dfss.Text.Split.{Boost}
use dfss.Members.{
  MemberEntry, MemberList, member_entry, Node, make_message, add_to_memlist, heard_from, detect,
  heartbeat_handler, update_handler, contact_introducer, failure_detector_round,
  master_elector_round,
}
use dfss.Members.Beats.{add_all, start_node}
use dfss.Members.Detection.{add_to_local-members}
use dfss.Members.Gossip.{IsPlain, heartbeat_handler-learn}
use dfss.Members.Known.{start_node-Covered}
use dfss.Members.Learn.{learn, learn_all}
use dfss.Members.Life.{
  IsUpdate, IsValid, Step-IsValid, beats, updates, detects, elects, master_elector_round-lists,
}
use dfss.System.{blank}
use dfss.System.Packets.{IsAddress}

-- The membership list is in order, of addresses without `;` and `:`, and there are at most four
-- neighbours.
abbrev pub IsProcess : Node → Type 0
IsProcess n = IsValid n × All IsPlain n.member_list

pub blank-IsProcess : (master : Str) → IsProcess (record blank { master = master })
blank-IsProcess master = (record { sorted = tt; few = omega arith }, tt)

renewed-IsPlain :
    (f : MemberEntry → MemberEntry) (k : Str) (m : MemberList)
    → All IsPlain m
    → All IsPlain (map_modify f k m)
renewed-IsPlain f k m h = modify-All IsPlain f k m (λ x v p. p) h

add_to_memlist-IsPlain :
    (ip : Str) (now : ℕ) (n : Node)
    → IsAddress ip
    → All IsPlain n.member_list
    → All IsPlain (add_to_memlist ip now n).member_list
unfolding add_to_memlist
add_to_memlist-IsPlain ip now n new h = elim (Option-cases (map_find ip n.member_list)) [
  | inl d ↦ rw (d, add_to_memlist) (insert-All IsPlain ip (member_entry ip now) n.member_list new h)
  | inr (e, d) ↦ rw (d, add_to_memlist) h
]

add_all-IsPlain :
    (ips : List Str) (now : ℕ) (n : Node)
    → All IsAddress ips
    → All IsPlain n.member_list
    → All IsPlain (add_all ips now n).member_list
unfolding add_all
add_all-IsPlain [] now n new h = h
add_all-IsPlain (ip ∷ ips) now n new h =
    add_all-IsPlain ips now (add_to_memlist ip now n) new.1
      (add_to_memlist-IsPlain ip now n new.0 h)

pub start_node-IsProcess :
    (b : Boost) (response master : Str) (now : ℕ)
    → IsUpdate b response
    → All IsAddress (contact_introducer b response blank).local_neighbour_list
    → IsProcess (record (start_node b response now blank) { master = master })
unfolding start_node contact_introducer
start_node-IsProcess b response master now fits new =
    let (v, known) = start_node-Covered b response now blank refl fits in
    (
      record { sorted = v.sorted; few = v.few },
      add_all-IsPlain (contact_introducer b response blank).local_neighbour_list now
          (contact_introducer b response blank) new tt,
    )

heard_from-IsPlain :
    (ip : Str) (now : ℕ) (n : Node)
    → IsAddress ip
    → All IsPlain n.member_list
    → All IsPlain (heard_from ip now n).member_list
unfolding heard_from
heard_from-IsPlain ip now n new h = elim (Option-cases (map_find ip n.member_list)) [
  | inl d ↦ rw (d, heard_from) (insert-All IsPlain ip (member_entry ip now) n.member_list new h)
  | inr (e, d) ↦
      rw (d, heard_from)
        (subst (All IsPlain) (sym (add_to_local-members ip _))
          (renewed-IsPlain _ ip n.member_list h))
]

learn-IsPlain :
    (nb : List Str) (now : ℕ) (ip : Str) (p : MemberEntry) (m : MemberList)
    → IsPlain (ip, p)
    → All IsPlain m
    → All IsPlain (learn nb now ip p m)
unfolding learn
learn-IsPlain nb now ip p m new h = elim (Option-cases (map_find ip m)) [
  | inl d ↦ rw (d, learn) (insert-All IsPlain ip (member_entry ip now) m new h)
  | inr (e, d) ↦ rw (d, learn) (renewed-IsPlain _ ip m h)
]

learn_all-IsPlain :
    (nb : List Str) (now : ℕ) (peer m : MemberList)
    → All IsPlain peer
    → All IsPlain m
    → All IsPlain (learn_all nb now peer m)
unfolding learn_all
learn_all-IsPlain nb now [] m new h = h
learn_all-IsPlain nb now ((ip, p) ∷ peer) m new h =
    learn_all-IsPlain nb now peer (learn nb now ip p m) new.1 (learn-IsPlain nb now ip p m new.0 h)

-- A heartbeat gives a state, with new entries for the members that were not known.
pub heartbeat_handler-IsProcess :
    (b : Boost) (peer : MemberList) (ip : Str) (now : ℕ) (n : Node)
    → IsAddress ip
    → All IsPlain peer
    → IsProcess n
    → (n' : Node) × (heartbeat_handler b (make_message [] peer) ip now n ≡ some (n', codes "pong"))
      × IsProcess n'
heartbeat_handler-IsProcess b peer ip now n own plain (v, h) =
    let heard = heard_from ip now n in
    let n' : Node = record heard {
      member_list = learn_all heard.local_neighbour_list now peer heard.member_list;
    } in
    let run = heartbeat_handler-learn b peer ip now n plain in
    (
      n',
      run,
      (
        Step-IsValid b n n' (beats (make_message [] peer) ip (codes "pong") now run) v,
        learn_all-IsPlain heard.local_neighbour_list now peer heard.member_list plain
            (heard_from-IsPlain ip now n own h),
      ),
    )

pub update_handler-IsProcess :
    (b : Boost) (response : Str) (n : Node)
    → IsUpdate b response
    → IsProcess n
    → IsProcess (update_handler b response n).0
unfolding update_handler
update_handler-IsProcess b response n fits (v, h) =
    (Step-IsValid b n (update_handler b response n).0 (updates response fits) v, h)

detect-IsPlain :
    (ips : List Str) (now : ℕ) (m : MemberList) → All IsPlain m → All IsPlain (detect ips now m)
unfolding detect
detect-IsPlain [] now m h = h
detect-IsPlain (ip ∷ ips) now m h = detect-IsPlain ips now _ (renewed-IsPlain _ ip m h)

pub failure_detector_round-IsProcess :
    (b : Boost) (now : ℕ) (n : Node) → IsProcess n → IsProcess (failure_detector_round now n)
unfolding failure_detector_round
failure_detector_round-IsProcess b now n (v, h) = (
  Step-IsValid b n (failure_detector_round now n) (detects now) v,
  detect-IsPlain n.local_neighbour_list now n.member_list h,
)

pub master_elector_round-IsProcess :
    (b : Boost) (n : Node) → IsProcess n → IsProcess (master_elector_round n)
master_elector_round-IsProcess b n (v, h) = (
  Step-IsValid b n (master_elector_round n) elects v,
  subst (All IsPlain) (sym (master_elector_round-lists n).0) h,
)
