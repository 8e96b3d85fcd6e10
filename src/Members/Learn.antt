-- ===== src/Members/Learn.antt =====
-- src/client.cpp, `heartbeat_handler`: what the entries of a heartbeat do to a membership list, member by member.
use dfss.Base.{
  ℕ, ◌≡◌, refl, sym, subst, ◌∙◌, inl, inr, Bool, not, ◌&&◌, ◌||◌, Option, none, some, List, [], ◌∷◌,
  arith, if◌then◌else◌, Bool-cases, Option-cases,
}
use dfss.Text.{Str, str_eq, str_eq_iff}
use dfss.Text.Map.{
  map_find, map_insert, map_modify, IsSorted, find-above, find-insert, find-modify,
  map_insert-IsSorted, map_modify-IsSorted,
}
use dfss.Text.Order.{set_has}
use dfss.Members.{MemberEntry, MemberList, member_entry, merge, bool_to_string}

-- What the receiver comes to hold of a member: a new one counts as alive; of a known one a report
-- of life is believed, and a report of failure unless the member is a neighbour.
abbrev pub gossip : ℕ → Bool → Str → Option MemberEntry → Option MemberEntry → Option MemberEntry
gossip now neighbour ip none own = own
gossip now neighbour ip (some p) none = some (member_entry ip now)
gossip now neighbour ip (some p) (some e) =
    some (record e { failed = p.failed && (e.failed || not neighbour) })

merge-gossip :
    (p e : MemberEntry) (neighbour : Bool)
    → merge (bool_to_string p.failed) neighbour e
      ≡ record e { failed = p.failed && (e.failed || not neighbour) }
unfolding merge bool_to_string str_eq
merge-gossip p e neighbour = ground arith

-- The step of one entry on the list itself.
unfoldable pub learn : List Str → ℕ → Str → MemberEntry → MemberList → MemberList
learn nb now ip p m = elim (map_find ip m) [
  | none ↦ map_insert ip (member_entry ip now) m
  | some _ ↦ map_modify (merge (bool_to_string p.failed) (set_has ip nb)) ip m
]

pub learn-IsSorted :
    (nb : List Str) (now : ℕ) (ip : Str) (p : MemberEntry) (m : MemberList)
    → IsSorted m
    → IsSorted (learn nb now ip p m)
unfolding learn
learn-IsSorted nb now ip p m s = elim (Option-cases (map_find ip m)) [
  | inl e ↦ rw (e, learn) (map_insert-IsSorted ip (member_entry ip now) m s)
  | inr (v, e) ↦ rw (e, learn) (map_modify-IsSorted _ ip m s)
]

find-learn :
    (nb : List Str) (now : ℕ) (ip i : Str) (p : MemberEntry) (m : MemberList)
    → IsSorted m
    → map_find i (learn nb now ip p m) ≡ (
        if str_eq i ip
        then gossip now (set_has ip nb) ip (some p) (map_find ip m)
        else map_find i m)
unfolding learn
find-learn nb now ip i p m s = elim (Option-cases (map_find ip m)) [
  | inl e ↦ rw (e, learn) (find-insert ip i (member_entry ip now) m s ∙ rw e refl)
  | inr (v, e) ↦
      rw (e, learn)
        (find-modify (merge (bool_to_string p.failed) (set_has ip nb)) ip i m
          ∙ rw (e, merge-gossip p v (set_has ip nb)) refl)
]

unfoldable pub learn_all : List Str → ℕ → MemberList → MemberList → MemberList
learn_all nb now [] m = m
learn_all nb now ((ip, p) ∷ peer) m = learn_all nb now peer (learn nb now ip p m)

pub learn_all-IsSorted :
    (nb : List Str) (now : ℕ) (peer m : MemberList)
    → IsSorted m
    → IsSorted (learn_all nb now peer m)
unfolding learn_all
learn_all-IsSorted nb now [] m s = s
learn_all-IsSorted nb now ((ip, p) ∷ peer) m s =
    learn_all-IsSorted nb now peer (learn nb now ip p m) (learn-IsSorted nb now ip p m s)

pub find-learn_all :
    (nb : List Str) (now : ℕ) (i : Str) (peer m : MemberList)
    → IsSorted peer
    → IsSorted m
    → map_find i (learn_all nb now peer m)
      ≡ gossip now (set_has i nb) i (map_find i peer) (map_find i m)
unfolding learn_all map_find
find-learn_all nb now i [] m sp sm = refl
find-learn_all nb now i ((ip, p) ∷ peer) m sp sm =
    let rest =
      find-learn_all nb now i peer (learn nb now ip p m) sp.1 (learn-IsSorted nb now ip p m sm) in
    let one = find-learn nb now ip i p m sm in
    elim (Bool-cases (str_eq i ip)) [
      | inl same ↦
          let e : i ≡ ip = (str_eq_iff i ip).0 same in
          let gone : map_find i peer ≡ none =
            subst (λ k. map_find k peer ≡ none) (sym e) (find-above ip peer sp.0) in
          rest ∙ rw (gone, one, same, e) refl
      | inr other ↦ rest ∙ rw (one, other) refl
    ]
