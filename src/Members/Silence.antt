-- ===== src/Members/Silence.antt =====
-- src/client.cpp, `failure_detector`: a neighbour that falls silent.
use dfss.Base.{
  ℕ, ◌+◌, ◌≤◌, ◌≡◌, refl, sym, ◌∙◌, subst, Bool, true, false, some, arith, Bool-cases, Option-cases,
  inl, inr,
}
use dfss.Text.{Str, str_eq, str_eq_iff}
use dfss.Text.Map.{map_find, map_insert, map_modify, IsSorted, find-insert, find-modify}
use dfss.Text.Order.{set_has}
use dfss.Text.Split.{Boost}
use dfss.Members.{
  MemberEntry, MemberList, member_entry, Node, add_to_memlist, merge, heard_from, update_handler,
  contact_introducer, failure_detector_round,
}
use dfss.Members.Detection.{judged, detector-judges, add_to_local-members}
use dfss.Members.Life.{
  Step, contacts, adds, beats, updates, detects, elects, Edit, enters, merges, IsValid,
  heartbeat_handler-keeps, Edit-IsValid, heard_from-IsValid, Step-IsValid,
  master_elector_round-lists,
}

-- The step is not a heartbeat of `ip`.
abbrev pub NotFrom : (b : Boost) → Str → (n n' : Node) → Step b n n' → Type 0
NotFrom b ip n n' (beats request sender reply now e) = str_eq ip sender ≡ false
NotFrom b ip n n' (contacts response fits) = Unit
NotFrom b ip n n' (adds added now) = Unit
NotFrom b ip n n' (updates response fits) = Unit
NotFrom b ip n n' (detects now) = Unit
NotFrom b ip n n' elects = Unit

-- Steps among which there is no heartbeat of `ip`.
pub data Quiet (b : Boost) (ip : Str) (start : Node) : Node → Type 0 where
  still : Quiet b ip start start
  then_quiet :
      {n n' : Node}
      → Quiet b ip start n
      → (step : Step b n n') → NotFrom b ip n n' step
      → Quiet b ip start n'

-- The member is in the list, with its last sign of life at `t`.
abbrev pub HeardAt : Str → ℕ → MemberList → Type 0
HeardAt ip t m = (e : MemberEntry) × (map_find ip m ≡ some e) × (e.time_stamp ≡ t)

pub insert-HeardAt :
    (ip : Str) (t : ℕ) (k : Str) (v : MemberEntry) (m : MemberList)
    → IsSorted m
    → HeardAt ip t m
    → HeardAt ip t (map_insert k v m)
insert-HeardAt ip t k v m s (e, found, at_t) = elim (Bool-cases (str_eq ip k)) [
  | inl same ↦
      let there : map_find k m ≡ some e =
        subst (λ i. map_find i m ≡ some e) ((str_eq_iff ip k).0 same) found in
      (e, find-insert k ip v m s ∙ rw (same, there) refl, at_t)
  | inr other ↦ (e, find-insert k ip v m s ∙ rw other found, at_t)
]

modify-HeardAt :
    (ip : Str) (t : ℕ) (f : MemberEntry → MemberEntry) (k : Str) (m : MemberList)
    → (str_eq ip k ≡ true → (e : MemberEntry) → (f e).time_stamp ≡ e.time_stamp)
    → HeardAt ip t m
    → HeardAt ip t (map_modify f k m)
modify-HeardAt ip t f k m keeps (e, found, at_t) = elim (Bool-cases (str_eq ip k)) [
  | inl same ↦
      let there : map_find k m ≡ some e =
        subst (λ i. map_find i m ≡ some e) ((str_eq_iff ip k).0 same) found in
      (f e, find-modify f k ip m ∙ rw (same, there) refl, keeps same e ∙ at_t)
  | inr other ↦ (e, find-modify f k ip m ∙ rw other found, at_t)
]

merge-time :
    (flag : Str) (neighbour : Bool) (e : MemberEntry)
    → (merge flag neighbour e).time_stamp ≡ e.time_stamp
unfolding merge
merge-time flag neighbour e = ground arith

-- A valid node that heard of `ip` at `t` last.
abbrev Waits : Str → ℕ → Node → Type 0
Waits ip t n = IsValid n × HeardAt ip t n.member_list

Edit-Waits : (ip : Str) (t now : ℕ) (n n' : Node) → Edit now n n' → Waits ip t n → Waits ip t n'
Edit-Waits ip t now n n' (enters k new) (v, h) = (
  Edit-IsValid now n n' (enters k new) v,
  insert-HeardAt ip t k (member_entry k now) n.member_list v.sorted h,
)
Edit-Waits ip t now n n' (merges k flag neighbour) (v, h) = (
  Edit-IsValid now n n' (merges k flag neighbour) v,
  modify-HeardAt ip t (merge flag neighbour) k n.member_list (λ same e. merge-time flag neighbour e)
      h,
)

heard_from-HeardAt :
    (ip sender : Str) (t now : ℕ) (n : Node)
    → str_eq ip sender ≡ false
    → IsSorted n.member_list
    → HeardAt ip t n.member_list
    → HeardAt ip t (heard_from sender now n).member_list
unfolding heard_from
heard_from-HeardAt ip sender t now n other s h =
    elim (Option-cases (map_find sender n.member_list)) [
      | inl d ↦
          rw (d, heard_from)
            (insert-HeardAt ip t sender (member_entry sender now) n.member_list s h)
      | inr (e, d) ↦
          rw (d, heard_from)
            (subst (HeardAt ip t) (sym (add_to_local-members sender _)) (
              modify-HeardAt ip t (λ w. record w { time_stamp = now; failed = false }) sender
                n.member_list (λ same. absurd (apart (sym other ∙ same))) h))
    ]
  where
    apart : false ≡ true → ⊥
    apart e = cc

add_to_memlist-HeardAt :
    (ip added : Str) (t now : ℕ) (n : Node)
    → IsSorted n.member_list
    → HeardAt ip t n.member_list
    → HeardAt ip t (add_to_memlist added now n).member_list
unfolding add_to_memlist
add_to_memlist-HeardAt ip added t now n s h = elim (Option-cases (map_find added n.member_list)) [
  | inl d ↦
      rw (d, add_to_memlist) (insert-HeardAt ip t added (member_entry added now) n.member_list s h)
  | inr (e, d) ↦ rw (d, add_to_memlist) h
]

judged-time : (w : Bool) (now : ℕ) (e : MemberEntry) → (judged w now e).time_stamp ≡ e.time_stamp
judged-time w now e = ground arith

detects-HeardAt :
    (ip : Str) (t now : ℕ) (n : Node)
    → IsSorted n.member_list
    → HeardAt ip t n.member_list
    → HeardAt ip t (failure_detector_round now n).member_list
detects-HeardAt ip t now n s (e, found, at_t) =
    let watched = set_has ip n.local_neighbour_list in
    (
      judged watched now e,
      (detector-judges now n s).1 ip ∙ rw found refl,
      judged-time watched now e ∙ at_t,
    )

Step-HeardAt :
    (b : Boost) (ip : Str) (t : ℕ) (n n' : Node) (step : Step b n n')
    → NotFrom b ip n n' step
    → Waits ip t n
    → HeardAt ip t n'.member_list
unfolding contact_introducer update_handler
Step-HeardAt b ip t n n' (contacts response fits) quiet (v, h) = h
Step-HeardAt b ip t n n' (adds added now) quiet (v, h) =
    add_to_memlist-HeardAt ip added t now n v.sorted h
Step-HeardAt b ip t n n' (beats request sender reply now e) quiet (v, h) =
    (heartbeat_handler-keeps b request sender reply now (Waits ip t) (Edit-Waits ip t now) n n' e
      (heard_from-IsValid sender now n v, heard_from-HeardAt ip sender t now n quiet v.sorted h)).1
Step-HeardAt b ip t n n' (updates response fits) quiet (v, h) = h
Step-HeardAt b ip t n n' (detects now) quiet (v, h) = detects-HeardAt ip t now n v.sorted h
Step-HeardAt b ip t n n' elects quiet (v, h) =
    subst (HeardAt ip t) (sym (master_elector_round-lists n).0) h

Quiet-Waits :
    (b : Boost) (ip : Str) (t : ℕ) {start n : Node}
    → Waits ip t start
    → Quiet b ip start n
    → Waits ip t n
Quiet-Waits b ip t w still = w
Quiet-Waits b ip t w (then_quiet {n = m} {n' = n'} q step quiet) =
    let before = Quiet-Waits b ip t w q in
    (Step-IsValid b m n' step before.0, Step-HeardAt b ip t m n' step quiet before)

-- Let a valid node have heard of `ip` at `t` last, and let any steps follow among which there is no
-- heartbeat of `ip`. If `ip` is a neighbour then, the next round of the failure detector that comes
-- two seconds or more after `t` marks it as failed, whatever others reported of it.
pub silent-marked :
    (b : Boost) (ip : Str) (t now : ℕ) (start n : Node)
    → IsValid start
    → HeardAt ip t start.member_list
    → Quiet b ip start n
    → set_has ip n.local_neighbour_list ≡ true
    → t + 2 ≤ now
    → (e : MemberEntry) × (map_find ip (failure_detector_round now n).member_list ≡ some e)
      × (e.failed ≡ true)
silent-marked b ip t now start n v h q watched late =
    let (v', (e, found, at_t)) = Quiet-Waits b ip t (v, h) q in
    (
      judged true now e,
      (detector-judges now n v'.sorted).1 ip ∙ rw (found, watched) refl,
      ground arith,
    )
