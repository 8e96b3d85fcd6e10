-- ===== src/Commands/Tolerance.antt =====
-- src/client.cpp: the copies that `put` leaves, when nodes fail.
use dfss.Base.{
  ◌≡◌, refl, sym, ap, ◌∙◌, subst, true, false, ◌&&◌, ◌||◌, some, List, [], ◌∷◌, ◌++◌, inl, inr,
  Bool-cases, arith,
}
use dfss.Commands.{uploaded, put_command}
use dfss.Commands.Cluster.{Machines, cluster, cluster_service, places-cluster, holds-cluster}
use dfss.Commands.Outcome.{put-places}
use dfss.Placement.{where_to, has_file}
use dfss.Placement.Distinct.{IsActive, where_to-distinct}
use dfss.Text.{Str, str_eq, str_eq_iff, str_eq_refl, codes}
use dfss.Text.Map.{IsSorted}
use dfss.Text.Order.{str_lt, str_lt_irrefl, str_lt_trans, set_has}
use dfss.Text.Split.{Boost, Free, has_byte}

differ : (x y : Str) → str_lt x y ≡ true → str_eq x y ≡ false
differ x y h = elim (Bool-cases (str_eq x y)) [
  | inr e ↦ e
  | inl e ↦ ground (arith, str_eq_iff x y, str_lt_irrefl x)
]

not_both : (x y p : Str) → str_eq x y ≡ false → str_eq x p ≡ true → str_eq y p ≡ false
not_both x y p h e = ground (arith, str_eq_iff x y, str_eq_iff x p, str_eq_iff y p)

-- Of three different addresses, two do not take all.
spared :
    (P : Str → Type 0) (x y z p q : Str)
    → P x
    → P y
    → P z
    → str_lt z x ≡ true
    → str_lt x y ≡ true
    → (s : Str) × P s × (str_eq s p ≡ false) × (str_eq s q ≡ false)
spared P x y z p q px py pz zx xy =
    let xy' = differ x y xy in
    let zx' = differ z x zx in
    let zy' = differ z y (str_lt_trans z x y zx xy) in
    elim (Bool-cases (str_eq x p || str_eq x q)) [
      | inr e ↦ (x, px, ground arith, ground arith)
      | inl ex ↦ elim (Bool-cases (str_eq y p || str_eq y q)) [
        | inr e ↦ (y, py, ground arith, ground arith)
        | inl ey ↦
            (z, pz, last p q zx' zy' xy' ex ey, last q p zx' zy' xy' (ground arith) (ground arith))
      ]
    ]
  where
    last :
        (p q : Str)
        → str_eq z x ≡ false
        → str_eq z y ≡ false
        → str_eq x y ≡ false
        → (str_eq x p || str_eq x q) ≡ true
        → (str_eq y p || str_eq y q) ≡ true
        → str_eq z p ≡ false
    last p q zx' zy' xy' ex ey = ground (
      arith,
      not_both z x p,
      not_both z y p,
      not_both x y p,
      not_both x y q,
      str_eq_iff z p,
      str_eq_iff x p,
      str_eq_iff y p,
      str_eq_iff z x,
      str_eq_iff z y,
      str_eq_iff x q,
      str_eq_iff y q,
      str_eq_iff x y,
    )

-- What `put` leaves, and a place of the file that is neither `p` nor `q`.
pub put-spares :
    (b : Boost) (me : Str) (w : Machines) (v1 v2 p q : Str) (ips : List Str)
    → has_byte b';' me ≡ false
    → has_file (codes "./" ++ v1) w.own ≡ true
    → has_byte b';' v2 ≡ false
    → IsSorted w.members
    → where_to b v2 w.members ≡ some ips
    → Free b';' ips
    → (w' : Machines) × (put_command b (cluster b me) (codes "yes") v1 v2 w ≡ (uploaded ips, w'))
      × ((ip n : Str)
          → has_file n (w'.files ip) ≡ ((set_has ip ips && str_eq n v2) || has_file n (w.files ip)))
      × (s : Str) × IsActive w.members s
      × (set_has s ips ≡ true)
      × (str_eq s p ≡ false)
      × (str_eq s q ≡ false)
unfolding set_has
put-spares b me w v1 v2 p q ips free here plain sorted places f =
    let (w', put, holds, keeps) =
      put-places b (cluster b me) me (cluster_service b me) free w v1 v2 ips here plain
        (places-cluster b me w v2 ∙ places) f in
    let (hit, next, prev, same, a, c, d, lower, higher) =
      where_to-distinct b v2 w.members ips sorted places in
    let (s, (active, among), no_p, no_q) =
      spared (λ s. IsActive w.members s × (set_has s (hit ∷ next ∷ prev ∷ []) ≡ true)) hit next prev
        p q (a, rw (str_eq_refl hit) refl) (c, rw (str_eq_refl next) (ground arith))
        (d, rw (str_eq_refl prev) (ground arith)) lower higher in
    (
      w',
      put,
      λ ip n.
          sym (holds-cluster b me w' ip n)
          ∙ holds ip n
          ∙ ap (λ h. (set_has ip ips && str_eq n v2) || h) (holds-cluster b me w ip n),
      s,
      active,
      subst (λ l. set_has s l ≡ true) (sym same) among,
      no_p,
      no_q,
    )

-- `put` of a file that is here, confirmed if the master asks, for an own address, a new name and
-- places without `;`, on a master whose membership list is in order: whichever two nodes `p` and
-- `q` fail then, another node has the file under its new name, one that is a member and was not
-- marked as failed.
pub put-tolerates :
    (b : Boost) (me : Str) (w : Machines) (v1 v2 p q : Str) (ips : List Str)
    → has_byte b';' me ≡ false
    → has_file (codes "./" ++ v1) w.own ≡ true
    → has_byte b';' v2 ≡ false
    → IsSorted w.members
    → where_to b v2 w.members ≡ some ips
    → Free b';' ips
    → (w' : Machines) × (put_command b (cluster b me) (codes "yes") v1 v2 w ≡ (uploaded ips, w'))
      × (s : Str) × IsActive w.members s
      × (has_file v2 (w'.files s) ≡ true)
      × (str_eq s p ≡ false)
      × (str_eq s q ≡ false)
put-tolerates b me w v1 v2 p q ips free here plain sorted places f =
    let (w', put, holds, s, active, among, no_p, no_q) =
      put-spares b me w v1 v2 p q ips free here plain sorted places f in
    (w', put, s, active, holds s v2 ∙ rw (among, str_eq_refl v2) refl, no_p, no_q)
