-- ===== src/Introducer/Beats.antt =====
-- src/client.cpp: the rounds in `main` in which the introducer beats to the nodes next to it.
use mathlib.Core.List.{map-append}
use dfss.Base.{
  ◌≡◌, refl, sym, ap, ◌∙◌, subst, ◌≢◌, ◌⊎◌, inl, inr, Bool, false, not, ◌&&◌, ◌||◌, some, List, [],
  ◌∷◌, ◌++◌, ◌==◌, arith, map, Bool-cases, if◌then◌else◌, All, All-append,
}
use dfss.Text.{Str, str_eq, str_eq_iff}
use dfss.Text.Order.{set_has, set_has-append, All-at-set_has}
use dfss.Text.Split.{Boost}
use dfss.Node.{Ptr, null, VirtualRing}
use dfss.Members.{MemberList}
use dfss.Members.Beats.{introducer_beat, introducer_round}
use dfss.Members.Beating.{is_failed}
use dfss.Members.Known.{IsMember}
use dfss.Introducer.{neighbour_set}
use dfss.Introducer.Near.{Within, near}
use dfss.Introducer.Replies.{neighbour_set_lem}
use dfss.Ring.Refine.{IsRing-live}
use dfss.Ring.Spec.{Represents, addresses, set_has-map}

-- The addresses of a round's messages.
abbrev pub receivers : List (Str × Str) → List Str
receivers sent = map (λ x. x.0) sent

abbrev pub IsEmpty : Str × Str → Type 0
IsEmpty x = x.1 ≡ []

module _ (m : MemberList) (r : VirtualRing) where
  -- The message to the node behind a pointer.
  abbrev beat_to : Ptr → List (Str × Str)
  beat_to p =
      if p == null then [] else if is_failed (r.ip_addr p) m then [] else (r.ip_addr p, []) ∷ []

  beat_to-IsEmpty : (p : Ptr) → All IsEmpty (beat_to p)
  beat_to-IsEmpty p = ground arith

  one_has :
      (f : Bool) (x ip : Str)
      → set_has x (receivers (if f then [] else (ip, []) ∷ [])) ≡ (str_eq x ip && not f)
  unfolding set_has
  one_has f x ip = ground arith

  receivers-beat_to :
      (p : Ptr) (x : Str)
      → set_has x (receivers (beat_to p))
        ≡ (not (p == null) && (str_eq x (r.ip_addr p) && not (is_failed x m)))
  unfolding set_has
  receivers-beat_to p x = elim (Bool-cases (p == null)) [
    | inl e ↦ rw e refl
    | inr e ↦ rw e (one_has (is_failed (r.ip_addr p) m) x (r.ip_addr p) ∙ own_mark (r.ip_addr p))
  ]
    where
      own_mark :
          (ip : Str) → (str_eq x ip && not (is_failed ip m)) ≡ (str_eq x ip && not (is_failed x m))
      own_mark ip = elim (Bool-cases (str_eq x ip)) [
        | inl same ↦ ap (λ y. str_eq x ip && not (is_failed y m)) (sym ((str_eq_iff x ip).0 same))
        | inr other ↦ rw other refl
      ]

  introducer_beat-some :
      (p : Ptr) → (p ≡ null) ⊎ IsMember m (r.ip_addr p) → introducer_beat m p r ≡ some (beat_to p)
  unfolding introducer_beat
  introducer_beat-some p (inl e) = rw e refl
  introducer_beat-some p (inr (e, found)) = elim (Bool-cases (p == null)) [
    | inl null_p ↦ rw null_p refl
    | inr open_p ↦ rw (open_p, found) refl
  ]

  -- What a round sends.
  abbrev beats_to : Ptr → List (Str × Str)
  beats_to i =
      beat_to (r.next1 i) ++ (beat_to (r.next2 i) ++ (beat_to (r.prev1 i) ++ beat_to (r.prev2 i)))

  abbrev Known : Ptr → Type 0
  Known p = (p ≡ null) ⊎ IsMember m (r.ip_addr p)

  receivers-beats_to :
      (i : Ptr) (x : Str)
      → set_has x (receivers (beats_to i)) ≡ (
          (not (r.next1 i == null) && (str_eq x (r.ip_addr (r.next1 i)) && not (is_failed x m)))
          || ((not (r.next2 i == null) && (str_eq x (r.ip_addr (r.next2 i)) && not (is_failed x m)))
              || ((not (r.prev1 i == null)
                    && (str_eq x (r.ip_addr (r.prev1 i)) && not (is_failed x m)))
                  || (not (r.prev2 i == null)
                      && (str_eq x (r.ip_addr (r.prev2 i)) && not (is_failed x m))))))
  receivers-beats_to i x = simp (map-append, set_has-append, receivers-beat_to) refl

  introducer_round-some :
      r.introducer ≢ null
      → Known (r.next1 r.introducer)
      → Known (r.next2 r.introducer)
      → Known (r.prev1 r.introducer)
      → Known (r.prev2 r.introducer)
      → introducer_round m r ≡ some (beats_to r.introducer)
  unfolding introducer_round
  introducer_round-some ne k1 k2 k3 k4 =
      let open_i : (r.introducer == null) ≡ false = ground arith in
      rw
        (
          open_i,
          introducer_beat-some (r.next1 r.introducer) k1,
          introducer_beat-some (r.next2 r.introducer) k2,
          introducer_beat-some (r.prev1 r.introducer) k3,
          introducer_beat-some (r.prev2 r.introducer) k4,
        )
        refl

-- Every address of the ring is in the list.
known :
    (b : Boost) (r : VirtualRing) (m : MemberList) (ips : List Str) (rep : Represents b r ips)
    → All (IsMember m) ips
    → (p : Ptr) → Within (r.introducer ∷ rep.nodes) p
    → (p ≡ null) ⊎ IsMember m (r.ip_addr p)
known b r m ips rep h p (inl e) = inl e
known b r m ips rep h p (inr i) = inr (
    All-at-set_has (IsMember m) (r.ip_addr p) (addresses r rep.nodes)
      (subst (All (IsMember m)) (sym rep.addrs) h)
      (set_has-map r.ip_addr p (r.introducer ∷ rep.nodes) i))

-- On a well-formed ring whose addresses are all in the introducer's membership list, a round of the
-- introducer's beats follows no NULL pointer and does not read past the list; its messages are
-- empty, and the addresses that they go to, the introducer's own left out, are those of
-- `neighbour_set` at the introducer that are not marked as failed.
pub introducer-beats :
    (b : Boost) (r : VirtualRing) (m : MemberList) (ips : List Str)
    → Represents b r ips
    → All (IsMember m) ips
    → (xs : List Str) × (sent : List (Str × Str)) × (neighbour_set
          (r.ip_addr r.introducer)
          r.introducer
          r
        ≡ some xs)
      × (introducer_round m r ≡ some sent)
      × All IsEmpty sent
      × ((x : Str)
          → (not (str_eq (r.ip_addr r.introducer) x) && set_has x (receivers sent))
            ≡ (set_has x xs && not (is_failed x m)))
introducer-beats b r m ips rep h =
    let i = r.introducer in
    let own = r.ip_addr i in
    let live : i ≢ null = (IsRing-live r rep.nodes rep.ring).0 in
    let (xs, set, rising, has) = neighbour_set_lem own i r live in
    let (w1, w2, w3, w4) = near r rep.nodes i rep.ring (ground arith) in
    let k = known b r m ips rep h in
    (
      xs,
      beats_to m r i,
      set,
      introducer_round-some m r live (k (r.next1 i) w1) (k (r.next2 i) w2) (k (r.prev1 i) w3)
          (k (r.prev2 i) w4),
      All-append IsEmpty (beat_to m r (r.next1 i)) _ (beat_to-IsEmpty m r (r.next1 i)) (
          All-append IsEmpty (beat_to m r (r.next2 i)) _ (beat_to-IsEmpty m r (r.next2 i)) (
            All-append IsEmpty (beat_to m r (r.prev1 i)) _ (beat_to-IsEmpty m r (r.prev1 i))
              (beat_to-IsEmpty m r (r.prev2 i)))),
      λ x. ground (arith, receivers-beats_to m r i x, has x),
    )
