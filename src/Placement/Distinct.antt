-- ===== src/Placement/Distinct.antt =====
-- src/client.cpp, `where_to`: the places of a file, whatever the loops pass over.
use dfss.Base.{
  ◌≡◌, sym, none_or_some, Bool, true, false, ◌||◌, some, List, [], ◌∷◌, All, Bool-cases, inl, inr,
  get_elem?, subst, Option-cases,
}
use dfss.Base.Int.{ℤ, ltb_ℤ}
use dfss.Text.{Str}
use dfss.Text.Order.{str_lt}
use dfss.Text.Map.{map_find, KeysAbove, IsSorted}
use dfss.Text.Entries.{All-of-find}
use dfss.Text.Number.{atoi}
use dfss.Text.Split.{Boost}
use dfss.Members.{MemberEntry, MemberList}
use dfss.Placement.{next_active, prev_active, copies, where_loop, where_to_value, where_to}

-- A member that is not marked as failed.
abbrev pub IsActive : MemberList → Str → Type 0
IsActive m ip = (e : MemberEntry) × (map_find ip m ≡ some e) × (e.failed ≡ false)

abbrev Found : MemberList → Str × MemberEntry → Type 0
Found m x = map_find x.0 m ≡ some x.1

abbrev Below : Str → MemberList → Type 0
Below ip = All (λ x. str_lt x.0 ip ≡ true)

-- Three places, and the order of their addresses.
abbrev pub Places : MemberList → List Str → Type 0
Places m ips =
    (hit : Str) × (next : Str) × (prev : Str) × (ips ≡ hit ∷ next ∷ prev ∷ [])
    × IsActive m hit
    × IsActive m next
    × IsActive m prev
    × (str_lt prev hit ≡ true)
    × (str_lt hit next ≡ true)

next_active-KeysAbove :
    (m : MemberList) (ip next : Str) (rest : MemberList)
    → KeysAbove ip rest
    → All (Found m) rest
    → next_active rest ≡ some next
    → IsActive m next × (str_lt ip next ≡ true)
unfolding next_active
next_active-KeysAbove m ip next [] above found e = absurd (none_or_some e)
next_active-KeysAbove m ip next ((j, w) ∷ rest) above found e = elim (Bool-cases w.failed) [
  | inl dead ↦ next_active-KeysAbove m ip next rest above.1 found.1 (rw dead at e)
  | inr alive ↦
      let same : j ≡ next = cc (rw alive at e) in
      subst (λ x. IsActive m x × (str_lt ip x ≡ true)) same ((w, found.0, alive), above.0)
]

prev_active-Below :
    (m : MemberList) (ip prev : Str) (seen : MemberList)
    → Below ip seen
    → All (Found m) seen
    → prev_active seen ≡ some prev
    → IsActive m prev × (str_lt prev ip ≡ true)
unfolding prev_active
prev_active-Below m ip prev [] below found e = absurd (none_or_some e)
prev_active-Below m ip prev (x ∷ []) below found e = absurd (none_or_some e)
prev_active-Below m ip prev ((j, w) ∷ y ∷ seen) below found e = elim (Bool-cases w.failed) [
  | inl dead ↦ prev_active-Below m ip prev (y ∷ seen) below.1 found.1 (rw dead at e)
  | inr alive ↦
      let same : j ≡ prev = cc (rw alive at e) in
      subst (λ x. IsActive m x × (str_lt x ip ≡ true)) same ((w, found.0, alive), below.0)
]

copies-Places :
    (m : MemberList) (ip : Str) (seen rest : MemberList) (ips : List Str)
    → IsActive m ip
    → KeysAbove ip rest
    → Below ip seen
    → All (Found m) rest
    → All (Found m) seen
    → copies ip seen rest ≡ some ips
    → Places m ips
unfolding copies
copies-Places m ip seen rest ips alive above below later earlier e =
    elim (Option-cases (next_active rest)) [
      | inl none_next ↦ absurd (none_or_some (rw none_next at e))
      | inr (next, is_next) ↦ elim (Option-cases (prev_active seen)) [
        | inl none_prev ↦ absurd (none_or_some (rw (is_next, none_prev) at e))
        | inr (prev, is_prev) ↦
            let (active_next, higher) = next_active-KeysAbove m ip next rest above later is_next in
            let (active_prev, lower) = prev_active-Below m ip prev seen below earlier is_prev in
            let same : (ip ∷ next ∷ prev ∷ []) ≡ ips = cc (rw (is_next, is_prev) at e) in
            (ip, next, prev, sym same, alive, active_next, active_prev, lower, higher)
      ]
    ]

-- Every member before the loop is below every member from it on.
abbrev Rises : MemberList → MemberList → Type 0
Rises seen rest = All (λ x. KeysAbove x.0 rest) seen

heads : (x : Str × MemberEntry) (rest seen : MemberList) → Rises seen (x ∷ rest) → Below x.0 seen
heads x rest [] h = tt
heads x rest (y ∷ seen) h = (h.0.0, heads x rest seen h.1)

tails : (x : Str × MemberEntry) (rest seen : MemberList) → Rises seen (x ∷ rest) → Rises seen rest
tails x rest [] h = tt
tails x rest (y ∷ seen) h = (h.0.1, tails x rest seen h.1)

where_loop-Places :
    (b : Boost) (val : ℤ) (m seen rest : MemberList) (ips : List Str)
    → IsSorted rest
    → Rises seen rest
    → All (Found m) rest
    → All (Found m) seen
    → where_loop b val seen rest ≡ some ips
    → Places m ips
unfolding where_loop
where_loop-Places b val m seen [] ips s r later earlier e = absurd (none_or_some e)
where_loop-Places b val m seen ((ip, w) ∷ rest) ips s r later earlier e =
    elim (Option-cases (get_elem? (b.split b'.' ip) 3)) [
      | inl short ↦ absurd (none_or_some (rw short at e))
      | inr (t, octet) ↦ elim (Bool-cases (ltb_ℤ (atoi t) val || w.failed)) [
        | inl passed ↦
            where_loop-Places b val m ((ip, w) ∷ seen) rest ips s.1 (s.0, tails (ip, w) rest seen r)
              later.1 (later.0, earlier) (rw (octet, passed) at e)
        | inr stops ↦
            copies-Places m ip seen rest ips
              (w, later.0, or_false (ltb_ℤ (atoi t) val) w.failed stops) s.0
              (heads (ip, w) rest seen r) later.1 earlier (rw (octet, stops) at e)
      ]
    ]
  where
    or_false : (c d : Bool) → (c || d) ≡ false → d ≡ false
    or_false true d h = cc
    or_false false d h = h

-- On a membership list in order, as a map keeps it, whenever `where_to` answers, it names three
-- members, none of them marked as failed: the third comes before the first in the order of the
-- addresses, and the first before the second, so that the three are different.
pub where_to-distinct :
    (b : Boost) (request : Str) (m : MemberList) (ips : List Str)
    → IsSorted m
    → where_to b request m ≡ some ips
    → Places m ips
unfolding where_to
where_to-distinct b request m ips s e = elim (Option-cases (where_to_value request m)) [
  | inl none_value ↦ absurd (none_or_some (rw none_value at e))
  | inr (val, value) ↦
      where_loop-Places b val m [] m ips s tt (All-of-find (Found m) m s (λ x w i. i)) tt
        (rw value at e)
]
