-- ===== src/Ring/Search.antt =====
-- src/virtual_ring.cpp, `insert`: what its two loops find.
use mathlib.Core.List.{append-nil}
use dfss.Base.{
  ℕ, zero, suc, ◌≡◌, refl, ◌∙◌, ◌≢◌, inl, inr, true, false, Option, none, some, List, [], ◌∷◌, ◌++◌,
  arith, ◌==◌, if◌then◌else◌, length, Bool-cases, All,
}
use dfss.Base.Int.{ℤ, pos, ltb_ℤ}
use dfss.Text.{Str, str_eq}
use dfss.Text.Split.{Boost}
use dfss.Node.{Ptr, null, VirtualRing}
use dfss.Ring.{find_node, find_slot, octet}
use dfss.Ring.Shape.{Chain}

-- The first node of the list that holds the address, or NULL.
abbrev pub holder : Str → (Ptr → Str) → List Ptr → Ptr
holder ip addr [] = null
holder ip addr (x ∷ xs) = if str_eq ip (addr x) then x else holder ip addr xs

abbrev pub AllLive : List Ptr → Type 0
AllLive = All (λ p. p ≢ null)

pub find_node-holder :
    (ip : Str) (r : VirtualRing) (p : Ptr) (xs : List Ptr) (stop : Ptr)
    → Chain r.next1 p xs stop
    → AllLive xs
    → find_node ip r (length xs) p ≡ some (holder ip r.ip_addr xs)
unfolding find_node
find_node-holder ip r p [] stop path live = refl
find_node-holder ip r p (x ∷ xs) stop path live =
    let open_x : (x == null) ≡ false = ground arith in
    let rest = find_node-holder ip r (r.next1 x) xs stop path.1 live.1 in
    rw (path.0, open_x, rest) (ground arith)

-- The elements whose key is below `val`, up to the first other one, and those from there on.
module _ {A : Type 0} (key : A → ℤ) (val : ℤ) where
  abbrev pub take_below : List A → List A
  take_below [] = []
  take_below (x ∷ xs) = let rest = take_below xs in if ltb_ℤ (key x) val then x ∷ rest else []

  abbrev pub drop_below : List A → List A
  drop_below [] = []
  drop_below (x ∷ xs) = let rest = drop_below xs in if ltb_ℤ (key x) val then rest else x ∷ xs

  pub take-append-drop : (xs : List A) → take_below xs ++ drop_below xs ≡ xs
  take-append-drop [] = refl
  take-append-drop (x ∷ xs) = ground (arith, take-append-drop xs)

  -- The slot of `val` among the nodes after the introducer: the loop starts from 1, so a value up
  -- to 1 comes to the end.
  abbrev pub before_slot : List A → List A
  before_slot xs = if ltb_ℤ (pos 1) val then take_below xs else xs

  abbrev pub after_slot : List A → List A
  after_slot xs = if ltb_ℤ (pos 1) val then drop_below xs else []

  pub before-append-after : (xs : List A) → before_slot xs ++ after_slot xs ≡ xs
  before-append-after xs = elim (Bool-cases (ltb_ℤ (pos 1) val)) [
    | inl h ↦ rw h (take-append-drop xs)
    | inr h ↦ rw h (append-nil xs)
  ]

abbrev pub octet_or : Option ℤ → ℤ
octet_or none = pos 0
octet_or (some v) = v

module _ (b : Boost) where
  -- The last field of an address, if it has four.
  abbrev pub number : Str → ℤ
  number ip = octet_or (octet b ip)

  abbrev pub HasOctet : Str → Type 0
  HasOctet ip = octet b ip ≡ some (number ip)

  module _ (r : VirtualRing) (val : ℤ) (start : Ptr) (live : start ≢ null)
      (known : HasOctet (r.ip_addr start)) where
    abbrev Found : Ptr → List Ptr → Option Ptr → Type 0
    Found p xs o =
        (mid : Ptr) × (o ≡ some mid)
        × Chain r.next1 p (take_below (λ q. number (r.ip_addr q)) val xs) mid
        × Chain r.next1 mid (drop_below (λ q. number (r.ip_addr q)) val xs) start

    find_slot_step :
        (k : ℕ) (val1 : ℤ) (p y : Ptr)
        → p ≢ null
        → y ≢ null
        → ltb_ℤ val1 val ≡ true
        → r.next1 p ≡ y
        → HasOctet (r.ip_addr y)
        → find_slot b val r (suc k) val1 p ≡ find_slot b val r k (number (r.ip_addr y)) y
    unfolding find_slot
    find_slot_step k val1 p y ne ne_y more e h =
        let open_p : (p == null) ≡ false = ground arith in
        let open_y : (y == null) ≡ false = ground arith in rw (more, open_p, e, open_y, h) refl

    find_slot_stop :
        (k : ℕ) (val1 : ℤ) (p : Ptr) → ltb_ℤ val1 val ≡ false → find_slot b val r k val1 p ≡ some p
    unfolding find_slot
    find_slot_stop zero val1 p last = refl
    find_slot_stop (suc k) val1 p last = rw last refl

    find_slot_done : (val1 : ℤ) (p : Ptr) → find_slot b val r 0 val1 p ≡ some p
    unfolding find_slot
    find_slot_done val1 p = refl

    find_slot-Found :
        (p : Ptr) (val1 : ℤ) (xs : List Ptr)
        → p ≢ null
        → ltb_ℤ val1 val ≡ true
        → Chain r.next1 (r.next1 p) xs start
        → AllLive xs
        → All (λ q. HasOctet (r.ip_addr q)) xs
        → Found (r.next1 p) xs (find_slot b val r (suc (length xs)) val1 p)
    find_slot-Found p val1 [] ne more path lives knowns = (
      start,
      find_slot_step 0 val1 p start ne live more path known
          ∙ find_slot_done (number (r.ip_addr start)) start,
      path,
      refl,
    )
    find_slot-Found p val1 (y ∷ ys) ne more path lives knowns =
        let step = find_slot_step (suc (length ys)) val1 p y ne lives.0 more path.0 knowns.0 in
        elim (Bool-cases (ltb_ℤ (number (r.ip_addr y)) val)) [
          | inr last ↦ (
            y,
            step ∙ find_slot_stop (suc (length ys)) (number (r.ip_addr y)) y last,
            rw last path.0,
            rw last (refl, path.1),
          )
          | inl on ↦
              let (mid, e, front, back) =
                find_slot-Found y (number (r.ip_addr y)) ys lives.0 on path.1 lives.1 knowns.1 in
              (mid, step ∙ e, rw on (path.0, front), rw on back)
        ]

    -- The loop from the introducer stops at the node behind the slot.
    pub find_slot-slot :
        (xs : List Ptr)
        → Chain r.next1 (r.next1 start) xs start
        → AllLive xs
        → All (λ q. HasOctet (r.ip_addr q)) xs
        → (mid : Ptr) × (find_slot b val r (suc (length xs)) (pos 1) start ≡ some mid)
          × Chain r.next1 (r.next1 start) (before_slot (λ q. number (r.ip_addr q)) val xs) mid
          × Chain r.next1 mid (after_slot (λ q. number (r.ip_addr q)) val xs) start
    find_slot-slot xs path lives knowns = elim (Bool-cases (ltb_ℤ (pos 1) val)) [
      | inr none_below ↦ (
        start,
        find_slot_stop (suc (length xs)) (pos 1) start none_below,
        rw none_below path,
        rw none_below refl,
      )
      | inl some_below ↦
          let (mid, e, front, back) =
            find_slot-Found start (pos 1) xs live some_below path lives knowns in
          (mid, e, rw some_below front, rw some_below back)
    ]
