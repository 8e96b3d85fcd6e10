-- ===== src/Members/Election.antt =====
-- src/client.cpp, `master_elector`: the master that it picks.
use mathlib.Core.List.{reverse, reverse-cons}
use dfss.Base.{
  ◌≡◌, refl, sym, ap, subst, ◌∙◌, ◌⊎◌, inl, inr, true, false, Option, none, some, [], ◌∷◌, ◌++◌,
  arith, if◌then◌else◌, Bool-cases, Option-cases, All,
}
use dfss.Text.{Str, str_eq_iff, str_eq_refl}
use dfss.Text.Map.{map_find, IsSorted, KeysAbove}
use dfss.Text.Order.{str_lt, str_lt_trans, str_lt_irrefl}
use dfss.Members.{MemberEntry, MemberList, Node, elect, but_first, master_elector_round}

-- From the last member down: what the scan finds when `(ip, e)` is put behind it.
elect-append :
    (m : MemberList) (x : Str × MemberEntry)
    → elect (m ++ (x ∷ [])) ≡ elim (elect m) [ none ↦ elect (x ∷ []) | some ip ↦ some ip ]
unfolding elect
elect-append [] x = refl
elect-append ((ip, e) ∷ m) x = elim (Bool-cases e.failed) [
  | inl h ↦ rw h (elect-append m x)
  | inr h ↦ rw h refl
]

-- The last of the living, from the front.
highest : MemberList → Option Str
highest [] = none
highest ((ip, e) ∷ m) = elim (highest m) [
  | none ↦ (if e.failed then none else some ip)
  | some j ↦ some j
]

elect-reverse : (m : MemberList) → elect (reverse m) ≡ highest m
unfolding highest elect
elect-reverse [] = refl
elect-reverse ((ip, e) ∷ m) =
    ap elect (reverse-cons (ip, e) m) ∙ elect-append (reverse m) (ip, e) ∙ rw (elect-reverse m) refl

-- Nobody lives, or `ip` does and no living member is above it.
abbrev pub IsHighest : MemberList → Option Str → Type 0
IsHighest m none = All (λ (x : Str × MemberEntry). x.1.failed ≡ true) m
IsHighest m (some ip) =
    ((e : MemberEntry) × (map_find ip m ≡ some e) × (e.failed ≡ false))
    × ((i : Str) (f : MemberEntry) → map_find i m ≡ some f → f.failed ≡ false → str_lt ip i ≡ false)

below-found :
    (ip i : Str) (f : MemberEntry) (m : MemberList)
    → KeysAbove ip m
    → map_find i m ≡ some f
    → str_lt ip i ≡ true
unfolding map_find
below-found ip i f [] a h = cc
below-found ip i f ((j, w) ∷ m) a h = ground (arith, below-found ip i f m a.1, str_eq_iff i j, a.0)

not-above : (ip i : Str) → str_lt ip i ≡ true → str_lt i ip ≡ false
not-above ip i h = elim (Bool-cases (str_lt i ip)) [
  | inr e ↦ e
  | inl e ↦ ground (arith, str_lt_trans ip i ip h e, str_lt_irrefl ip)
]

none-alive :
    (i : Str) (f : MemberEntry) (m : MemberList)
    → All (λ (x : Str × MemberEntry). x.1.failed ≡ true) m
    → map_find i m ≡ some f
    → f.failed ≡ true
unfolding map_find
none-alive i f [] a h = cc
none-alive i f ((j, w) ∷ m) a h = ground (arith, none-alive i f m a.1, a.0)

first-IsHighest :
    (ip : Str) (e : MemberEntry) (m : MemberList)
    → IsSorted ((ip, e) ∷ m)
    → e.failed ≡ false
    → IsHighest m none
    → IsHighest ((ip, e) ∷ m) (some ip)
unfolding map_find
first-IsHighest ip e m s alive rest = (
  (e, rw (str_eq_refl ip) refl, alive),
  λ i f found living.
      ground (arith, none-alive i f m rest, str_eq_iff i ip, str_lt_irrefl ip, found, living),
)

later-IsHighest :
    (ip : Str) (e : MemberEntry) (j : Str) (m : MemberList)
    → IsSorted ((ip, e) ∷ m)
    → IsHighest m (some j)
    → IsHighest ((ip, e) ∷ m) (some j)
unfolding map_find
later-IsHighest ip e j m s ((v, found_j, living_j), rest) =
    let above = below-found ip j v m s.0 found_j in
    (
      (v, ground (arith, found_j, above, str_eq_iff j ip, str_lt_irrefl ip), living_j),
      λ i f found living.
          ground (arith, rest i f, str_eq_iff i ip, not-above ip j above, found, living),
    )

highest-IsHighest : (m : MemberList) → IsSorted m → IsHighest m (highest m)
unfolding highest
highest-IsHighest [] s = tt
highest-IsHighest ((ip, e) ∷ m) s = elim (Option-cases (highest m)) [
  | inl h ↦
      let rest : IsHighest m none = rw h at (highest-IsHighest m s.1) in
      elim (Bool-cases e.failed) [
        | inl dead ↦
            let found : highest ((ip, e) ∷ m) ≡ none = rw (h, dead) refl in
            subst (IsHighest ((ip, e) ∷ m)) (sym found) (dead, rest)
        | inr alive ↦
            let found : highest ((ip, e) ∷ m) ≡ some ip = rw (h, alive) refl in
            subst (IsHighest ((ip, e) ∷ m)) (sym found) (first-IsHighest ip e m s alive rest)
      ]
  | inr (j, h) ↦
      let rest : IsHighest m (some j) = rw h at (highest-IsHighest m s.1) in
      rw h (later-IsHighest ip e j m s rest)
]

abbrev pub with_master : Node → Option Str → Node
with_master n none = n
with_master n (some ip) = record n { master = ip }

pub unfold_round :
    (n : Node) (o : Option Str)
    → elect (reverse (but_first n.member_list)) ≡ o
    → master_elector_round n ≡ with_master n o
unfolding master_elector_round
unfold_round n none e = rw (e, master_elector_round) refl
unfold_round n (some ip) e = rw (e, master_elector_round) refl

highest-none :
    (m : MemberList) → All (λ (x : Str × MemberEntry). x.1.failed ≡ true) m → highest m ≡ none
unfolding highest
highest-none [] dead = refl
highest-none ((ip, e) ∷ m) dead = rw (highest-none m dead.1, dead.0) refl

-- If the list behind its first member is sorted, then a round of `master_elector` makes the greatest
-- living member of that rest the master; if nobody in that rest lives, it changes nothing.
pub election :
    (n : Node)
    → IsSorted (but_first n.member_list)
    → (IsHighest (but_first n.member_list) none × (master_elector_round n ≡ n))
      ⊎ ((ip : Str) × IsHighest (but_first n.member_list) (some ip)
          × (master_elector_round n ≡ record n { master = ip }))
election n s = elim (Option-cases (highest (but_first n.member_list))) [
  | inl h ↦
      let spec : IsHighest (but_first n.member_list) none =
        rw h at (highest-IsHighest (but_first n.member_list) s) in
      inl (spec, unfold_round n none (elect-reverse (but_first n.member_list) ∙ h))
  | inr (ip, h) ↦
      let spec : IsHighest (but_first n.member_list) (some ip) =
        rw h at (highest-IsHighest (but_first n.member_list) s) in
      inr (ip, spec, unfold_round n (some ip) (elect-reverse (but_first n.member_list) ∙ h))
]

-- When every member but the first has failed, a round of `master_elector` changes nothing: the first
-- member is not made master.
pub first-not-elected :
    (n : Node) (first : Str) (e : MemberEntry) (m : MemberList)
    → n.member_list ≡ (first, e) ∷ m
    → All (λ (x : Str × MemberEntry). x.1.failed ≡ true) m
    → master_elector_round n ≡ n
first-not-elected n first e m eq dead = unfold_round n none (
    elect-reverse (but_first n.member_list)
    ∙ ap (λ l. highest (but_first l)) eq
    ∙ highest-none m dead)
