-- ===== src/Placement/Copies.antt =====
-- src/client.cpp, `where_to`: which three members hold a file.
use dfss.Base.{
  ◌≡◌, refl, ap, ◌∙◌, Bool, true, false, ◌||◌, none, some, [], ◌∷◌, ◌++◌, All, get_elem?,
}
use dfss.Base.Int.{ℤ, ltb_ℤ}
use dfss.Text.{Str}
use dfss.Text.Number.{atoi}
use dfss.Text.Split.{Boost}
use dfss.Members.{MemberEntry, MemberList}
use dfss.Placement.{next_active, prev_active, copies, where_loop, where_to_value, where_to}

-- The loop passes over a member, or stops at it.
abbrev pub Judged : Boost → ℤ → Bool → Str × MemberEntry → Type 0
Judged b val v x =
    (t : Str) × (get_elem? (b.split b'.' x.0) 3 ≡ some t) × ((ltb_ℤ (atoi t) val || x.1.failed) ≡ v)

abbrev pub Failed : Str × MemberEntry → Type 0
Failed x = x.1.failed ≡ true

-- The members passed over, pushed onto those before them.
abbrev onto : MemberList → MemberList → MemberList
onto [] seen = seen
onto (x ∷ xs) seen = onto xs (x ∷ seen)

where_loop-onto :
    (b : Boost) (val : ℤ) (seen xs rest : MemberList)
    → All (Judged b val true) xs
    → where_loop b val seen (xs ++ rest) ≡ where_loop b val (onto xs seen) rest
unfolding where_loop
where_loop-onto b val seen [] rest h = refl
where_loop-onto b val seen ((ip, e) ∷ xs) rest ((t, octet, skip), h) =
    rw (octet, skip) (where_loop-onto b val ((ip, e) ∷ seen) xs rest h)

where_loop-stop :
    (b : Boost) (val : ℤ) (seen rest : MemberList) (x : Str × MemberEntry)
    → Judged b val false x
    → where_loop b val seen (x ∷ rest) ≡ copies x.0 seen rest
unfolding where_loop
where_loop-stop b val seen rest (ip, e) (t, octet, stop) = rw (octet, stop) refl

next_active-gap :
    (gap : MemberList) (x : Str × MemberEntry) (ys : MemberList)
    → All Failed gap
    → x.1.failed ≡ false
    → next_active (gap ++ (x ∷ ys)) ≡ some x.0
unfolding next_active
next_active-gap [] (ip, e) ys h alive = rw alive refl
next_active-gap ((j, w) ∷ gap) x ys h alive = rw h.0 (next_active-gap gap x ys h.1 alive)

next_active-none : (gap : MemberList) → All Failed gap → next_active gap ≡ none
unfolding next_active
next_active-none [] h = refl
next_active-none ((j, w) ∷ gap) h = rw h.0 (next_active-none gap h.1)

prev_active-first :
    (x y : Str × MemberEntry) (seen : MemberList)
    → x.1.failed ≡ false
    → prev_active (x ∷ y ∷ seen) ≡ some x.0
unfolding prev_active
prev_active-first (ip, e) y seen alive = rw alive refl

prev_active-onto :
    (gap : MemberList) (y : Str × MemberEntry) (seen : MemberList) (ip : Str)
    → All Failed gap
    → prev_active (y ∷ seen) ≡ some ip
    → prev_active (onto gap (y ∷ seen)) ≡ some ip
unfolding prev_active
prev_active-onto [] y seen ip h found = found
prev_active-onto ((j, w) ∷ gap) y seen ip h found =
    prev_active-onto gap (j, w) (y ∷ seen) ip h.1 (rw h.0 found)

onto-append : (xs ys seen : MemberList) → onto (xs ++ ys) seen ≡ onto ys (onto xs seen)
onto-append [] ys seen = refl
onto-append (x ∷ xs) ys seen = onto-append xs ys (x ∷ seen)

onto-cons :
    (xs : MemberList) (x : Str × MemberEntry) (seen : MemberList)
    → (y : Str × MemberEntry) × (rest : MemberList) × (onto xs (x ∷ seen) ≡ y ∷ rest)
onto-cons [] x seen = (x, seen, refl)
onto-cons (z ∷ xs) x seen = onto-cons xs z (x ∷ seen)

copies-active :
    (ip second third : Str) (seen rest : MemberList)
    → next_active rest ≡ some second
    → prev_active seen ≡ some third
    → copies ip seen rest ≡ some (ip ∷ second ∷ third ∷ [])
unfolding copies
copies-active ip second third seen rest e d = rw (e, d) refl

-- Let the file name have the value `val`, and let `hit` be the first member that is active and whose last octet reaches the value of the file
-- name. If an active member follows it, and an active member other than the first of the list
-- precedes it, then the copies go to `hit`, to the nearest active member after it and to the
-- nearest active one before it.
pub where_to-places :
    (b : Boost) (request : Str) (val : ℤ) (first prev hit next : Str × MemberEntry)
    (xs before after ys : MemberList)
    → where_to_value request ((first ∷ xs) ++ (prev ∷ (before ++ (hit ∷ (after ++ (next ∷ ys))))))
      ≡ some val
    → All (Judged b val true) (first ∷ xs)
    → Judged b val true prev
    → All (Judged b val true) before
    → Judged b val false hit
    → prev.1.failed ≡ false
    → All Failed before
    → All Failed after
    → next.1.failed ≡ false
    → where_to b request ((first ∷ xs) ++ (prev ∷ (before ++ (hit ∷ (after ++ (next ∷ ys))))))
      ≡ some (hit.0 ∷ next.0 ∷ prev.0 ∷ [])
unfolding where_to
where_to-places b request val first prev hit next xs before after ys value hx hp hb stop alive fb fa
      awake =
    let tail = hit ∷ (after ++ (next ∷ ys)) in
    let (y, seen, e) = onto-cons xs first [] in
    let third =
      prev_active-onto before prev (y ∷ seen) prev.0 fb (prev_active-first prev y seen alive) in
    rw value (
      where_loop-onto b val [] (first ∷ xs) (prev ∷ (before ++ tail)) hx
      ∙ ap (λ s. where_loop b val s (prev ∷ (before ++ tail))) e
      ∙ where_loop-onto b val (y ∷ seen) (prev ∷ before) tail (hp, hb)
      ∙ where_loop-stop b val (onto before (prev ∷ y ∷ seen)) (after ++ (next ∷ ys)) hit stop
      ∙ copies-active hit.0 next.0 prev.0 (onto before (prev ∷ y ∷ seen)) (after ++ (next ∷ ys))
          (next_active-gap after next ys fa awake) third)

-- When the loop stops at `hit` and every member after it has failed, `where_to` has no defined
-- answer.
pub where_to-last :
    (b : Boost) (request : Str) (val : ℤ) (hit : Str × MemberEntry) (xs after : MemberList)
    → where_to_value request (xs ++ (hit ∷ after)) ≡ some val
    → All (Judged b val true) xs
    → Judged b val false hit
    → All Failed after
    → where_to b request (xs ++ (hit ∷ after)) ≡ none
unfolding where_to copies
where_to-last b request val hit xs after value hx stop fa = rw value (
    where_loop-onto b val [] xs (hit ∷ after) hx
    ∙ where_loop-stop b val (onto xs []) after hit stop
    ∙ rw (next_active-none after fa) refl)
