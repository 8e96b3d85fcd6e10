-- ===== src/Introducer/Strangers.antt =====
-- src/client.cpp: the rounds in `main` in which the introducer beats to a node that its membership
-- list does not have.
use dfss.Base.{
  ◌≡◌, refl, sym, ap, ◌∙◌, subst, ◌≢◌, ◌⊎◌, inl, inr, Bool, true, false, ◌||◌, Option, some, none,
  List, ◌==◌, arith, ◌>>=◌,
}
use dfss.Text.{Str, str_eq_iff}
use dfss.Text.Map.{map_find}
use dfss.Text.Order.{set_has}
use dfss.Text.Split.{Boost}
use dfss.Node.{Ptr, null, VirtualRing}
use dfss.Members.{MemberList}
use dfss.Members.Beats.{introducer_beat, introducer_round}
use dfss.Introducer.{neighbour_set}
use dfss.Introducer.Replies.{names, neighbour_set_lem}
use dfss.Ring.Refine.{IsRing-live}
use dfss.Ring.Spec.{Represents}

skip : {A B : Type 0} (o : Option A) (f : A → Option B) → ((a : A) → f a ≡ none) → (o >>= f) ≡ none
skip none f h = refl
skip (some a) f h = h a

module _ (m : MemberList) (r : VirtualRing) where
  -- A pointer to an address that is not in the list.
  abbrev Strange : Ptr → Type 0
  Strange p = (p ≢ null) × (map_find (r.ip_addr p) m ≡ none)

  introducer_beat-none : (p : Ptr) → Strange p → introducer_beat m p r ≡ none
  unfolding introducer_beat
  introducer_beat-none p (ne, missing) =
      let open_p : (p == null) ≡ false = ground arith in rw (open_p, missing) refl

  introducer_round-none :
      r.introducer ≢ null
      → Strange (r.next1 r.introducer)
        ⊎ (Strange (r.next2 r.introducer)
            ⊎ (Strange (r.prev1 r.introducer) ⊎ Strange (r.prev2 r.introducer)))
      → introducer_round m r ≡ none
  unfolding introducer_round
  introducer_round-none ne h =
      let open_i : (r.introducer == null) ≡ false = ground arith in
      rw open_i (elim h [
        | inl s1 ↦ rw (introducer_beat-none (r.next1 r.introducer) s1) refl
        | inr (inl s2) ↦
            skip (introducer_beat m (r.next1 r.introducer) r) _
              (λ b1. rw (introducer_beat-none (r.next2 r.introducer) s2) refl)
        | inr (inr (inl s3)) ↦ skip (introducer_beat m (r.next1 r.introducer) r) _ (λ b1.
            skip (introducer_beat m (r.next2 r.introducer) r) _
              (λ b2. rw (introducer_beat-none (r.prev1 r.introducer) s3) refl))
        | inr (inr (inr s4)) ↦ skip (introducer_beat m (r.next1 r.introducer) r) _ (λ b1.
            skip (introducer_beat m (r.next2 r.introducer) r) _ (λ b2.
              skip (introducer_beat m (r.prev1 r.introducer) r) _
                (λ b3. rw (introducer_beat-none (r.prev2 r.introducer) s4) refl)))
      ])

one_of :
    (a b c d : Bool)
    → (a || (b || (c || d))) ≡ true
    → (d ≡ true) ⊎ ((c ≡ true) ⊎ ((b ≡ true) ⊎ (a ≡ true)))
one_of true b c d h = inr (inr (inr refl))
one_of false true c d h = inr (inr (inl refl))
one_of false false true d h = inr (inl refl)
one_of false false false d h = inl h

-- The pointer that gives an address of the neighbours.
named_by :
    (m : MemberList) (r : VirtualRing) (own x : Str) (p : Ptr)
    → map_find x m ≡ none
    → names own r x p ≡ true
    → Strange m r p
named_by m r own x p missing named =
    let same : x ≡ r.ip_addr p = ground (arith, str_eq_iff x (r.ip_addr p)) in
    ((λ e. absurd (ground arith)), subst (λ y. map_find y m ≡ none) same missing)

-- On a well-formed ring, if one of the addresses of `neighbour_set` at the introducer is not in its
-- membership list, then its round of beats reads `end()`.
pub introducer_round-faults :
    (b : Boost) (r : VirtualRing) (m : MemberList) (ips xs : List Str) (x : Str)
    → Represents b r ips
    → neighbour_set (r.ip_addr r.introducer) r.introducer r ≡ some xs
    → set_has x xs ≡ true
    → map_find x m ≡ none
    → introducer_round m r ≡ none
introducer_round-faults b r m ips xs x rep listed there missing =
    let i = r.introducer in
    let own = r.ip_addr i in
    let live : i ≢ null = (IsRing-live r rep.nodes rep.ring).0 in
    let (ys, set, rising, has) = neighbour_set_lem own i r live in
    let same : ys ≡ xs = cc in
    let named = sym (has x) ∙ ap (set_has x) same ∙ there in
    introducer_round-none m r live
      (elim (one_of (names own r x (r.prev2 i)) (names own r x (r.prev1 i))
        (names own r x (r.next2 i)) (names own r x (r.next1 i)) named) [
          | inl e ↦ inl (named_by m r own x (r.next1 i) missing e)
          | inr (inl e) ↦ inr (inl (named_by m r own x (r.next2 i) missing e))
          | inr (inr (inl e)) ↦ inr (inr (inl (named_by m r own x (r.prev1 i) missing e)))
          | inr (inr (inr e)) ↦ inr (inr (inr (named_by m r own x (r.prev2 i) missing e)))
        ])
