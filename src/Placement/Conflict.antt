-- ===== src/Placement/Conflict.antt =====
-- src/client.cpp, `putfile_handler` and `safety_check`: when a put is refused.
use dfss.Base.{
  ℕ, ◌-◌, ◌≡◌, subst, sym, refl, Bool, true, false, none, some, inl, inr, arith, ltb, if◌then◌else◌,
  Option-cases, get_elem?, ◌>>=◌, [],
}
use dfss.Base.Int.{ℤ, pos, eqb_ℤ}
use dfss.Text.{Str, str_eq, codes, str_eq_refl}
use dfss.Text.Map.{map_find, map_set, find-set}
use dfss.Text.Split.{Boost}
use dfss.Text.Number.{string_to_int}
use dfss.Members.{MemberList}
use dfss.Placement.{SafetyCheck, check_conflict, putfile_handler, where_to, write_ips}

-- The request is a put of `name` that is not forced.
abbrev pub AsksPut : Boost → Str → Str → Type 0
AsksPut b request name =
    (p : Str) × (get_elem? (b.split b';' request) 0 ≡ some p)
    × (string_to_int p ≡ some (pos 0))
    × (get_elem? (b.split b';' request) 1 ≡ some name)

-- The request is a put of `name` that is forced.
abbrev pub AsksForced : Boost → Str → Str → Type 0
AsksForced b request name =
    (p : Str) × (get_elem? (b.split b';' request) 0 ≡ some p)
    × (force : ℤ) × (string_to_int p ≡ some force)
    × (eqb_ℤ force (pos 0) ≡ false)
    × (get_elem? (b.split b';' request) 1 ≡ some name)

putfile_handler-forced :
    (b : Boost) (request name : Str) (t : ℕ) (members : MemberList) (m : SafetyCheck)
    → AsksForced b request name
    → putfile_handler b request t members m
      ≡ (do ips ← where_to b name members; some (write_ips [] ips, m))
unfolding putfile_handler
putfile_handler-forced b request name t members m (p, first, force, parsed, on, second) =
    rw (first, parsed, second, on) refl

check_conflict-accepts :
    (name : Str) (t : ℕ) (m m' : SafetyCheck)
    → check_conflict name t m ≡ some m'
    → m' ≡ map_set name t m
unfolding check_conflict
check_conflict-accepts name t m m' e = elim (Option-cases (map_find name m)) [
  | inl d ↦ ground arith
  | inr (last, d) ↦ ground arith
]

check_conflict-again :
    (name : Str) (t t' : ℕ) (m : SafetyCheck)
    → check_conflict name t' (map_set name t m)
      ≡ (if ltb (t' - t) 60 then none else some (map_set name t' (map_set name t m)))
unfolding check_conflict
check_conflict-again name t t' m =
    rw (check_conflict, find-set name name t m, str_eq_refl name) refl

check_conflict-other :
    (name other : Str) (t t' : ℕ) (m : SafetyCheck)
    → str_eq other name ≡ false
    → map_find other (map_set name t m) ≡ map_find other m
check_conflict-other name other t t' m e = rw (find-set name other t m, e) refl

pub putfile_handler-put :
    (b : Boost) (request name : Str) (t : ℕ) (members : MemberList) (m : SafetyCheck)
    → AsksPut b request name
    → putfile_handler b request t members m ≡ elim (check_conflict name t m) [
      | none ↦ some (codes "CONFLICT", m)
      | some m' ↦ do ips ← where_to b name members; some (write_ips [] ips, m')
    ]
unfolding putfile_handler
putfile_handler-put b request name t members m (p, first, zero, second) =
    rw (first, zero, second) refl

answer-if :
    {A B : Type 0} (c : Bool) (y : A) (x : B) (f : A → B)
    → elim (if c then none else some y) [ none ↦ x | some a ↦ f a ] ≡ (if c then x else f y)
answer-if true y x f = refl
answer-if false y x f = refl

-- After a put of `name` that was not forced was let through at time `t`: a put of the same name at
-- `t'` that is not forced is refused, and leaves the table as it is, exactly when it comes less than
-- 60 seconds later; otherwise it is answered with the places of the file, and renews the time. A
-- forced put, of any name, is answered at any time, and leaves the table as it is: the 60 seconds
-- run on from the last put that was not forced.
pub conflict-window :
    (b : Boost) (name request other forced : Str) (t t' : ℕ) (members : MemberList)
    (m m' : SafetyCheck)
    → check_conflict name t m ≡ some m'
    → AsksPut b request name
    → AsksForced b forced other
    → (putfile_handler b request t' members m' ≡ (
        if ltb (t' - t) 60
        then some (codes "CONFLICT", m')
        else (do ips ← where_to b name members; some (write_ips [] ips, map_set name t' m'))))
      × (putfile_handler b forced t' members m'
          ≡ (do ips ← where_to b other members; some (write_ips [] ips, m')))
conflict-window b name request other forced t t' members m m' e asks asks' = (
  subst
      (λ n. putfile_handler b request t' members n ≡ (
        if ltb (t' - t) 60
        then some (codes "CONFLICT", n)
        else (do ips ← where_to b name members; some (write_ips [] ips, map_set name t' n))))
      (sym (check_conflict-accepts name t m m' e))
      (rw
        (
          putfile_handler-put b request name t' members (map_set name t m) asks,
          check_conflict-again name t t' m,
        )
        (answer-if (ltb (t' - t) 60) (map_set name t' (map_set name t m))
          (some (codes "CONFLICT", map_set name t m)) _)),
  putfile_handler-forced b forced other t' members m' asks',
)
