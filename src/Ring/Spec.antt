-- ===== src/Ring/Spec.antt =====
-- src/virtual_ring.cpp: the ring as the list of its addresses, and what `insert` and `leave` promise.
use mathlib.Core.List.{map-append}
use dfss.Base.{
  suc, ◌≡◌, refl, ap, inl, inr, true, not, List, [], ◌∷◌, ◌++◌, map, arith, ◌==◌, leb,
  if◌then◌else◌, length, Bool-cases, All, All-append,
}
use dfss.Base.Int.{ℤ, pos, ltb_ℤ}
use dfss.Text.{Str, str_eq, str_eq_refl}
use dfss.Text.Order.{set_has}
use dfss.Text.Split.{Boost}
use dfss.Node.{Ptr, null, VirtualRing}
use dfss.Ring.Shape.{mem, IsRing}
use dfss.Ring.Search.{
  AllLive, holder, take_below, drop_below, before_slot, after_slot, number, HasOctet,
}

-- The addresses from the introducer on.
abbrev pub addresses : VirtualRing → List Ptr → List Str
addresses r xs = map r.ip_addr (r.introducer ∷ xs)

-- A new address comes before the first whose last field is not smaller; one whose last field is
-- at most 1 comes last. The introducer stays first.
abbrev pub join_spec : Boost → Str → List Str → List Str
join_spec b ip [] = []
join_spec b ip (first ∷ rest) =
    if set_has ip (first ∷ rest)
    then first ∷ rest
    else first
      ∷ (before_slot (number b) (number b ip) rest
          ++ (ip ∷ after_slot (number b) (number b ip) rest))

abbrev pub erase : Str → List Str → List Str
erase ip [] = []
erase ip (x ∷ xs) = if str_eq ip x then xs else x ∷ erase ip xs

-- An address that leaves goes, unless only two are left.
abbrev pub leave_spec : Str → List Str → List Str
leave_spec ip [] = []
leave_spec ip (first ∷ rest) = if leb (length rest) 1 then first ∷ rest else first ∷ erase ip rest

-- A well-formed ring whose addresses have four fields and are `ips`.
pub record Represents (b : Boost) (r : VirtualRing) (ips : List Str) : Type 0 where
  pub nodes : List Ptr
  pub ring : IsRing r nodes
  pub addrs : addresses r nodes ≡ ips
  pub octets : All (HasOctet b) ips

pub length-map : (f : Ptr → Str) (xs : List Ptr) → length (map f xs) ≡ length xs
length-map f [] = refl
length-map f (x ∷ xs) = ap suc (length-map f xs)

module _ {A : Type 0} (f : A → Str) (k : Str → ℤ) (val : ℤ) where
  map-take_below :
      (xs : List A) → map f (take_below (λ x. k (f x)) val xs) ≡ take_below k val (map f xs)
  map-take_below [] = refl
  map-take_below (x ∷ xs) = elim (Bool-cases (ltb_ℤ (k (f x)) val)) [
    | inl h ↦ rw h (ap (◌∷◌ (f x)) (map-take_below xs))
    | inr h ↦ rw h refl
  ]

  map-drop_below :
      (xs : List A) → map f (drop_below (λ x. k (f x)) val xs) ≡ drop_below k val (map f xs)
  map-drop_below [] = refl
  map-drop_below (x ∷ xs) = elim (Bool-cases (ltb_ℤ (k (f x)) val)) [
    | inl h ↦ rw h (map-drop_below xs)
    | inr h ↦ rw h refl
  ]

  pub map-slots :
      (x : A) (xs : List A)
      → map f (before_slot (λ q. k (f q)) val xs ++ (x ∷ after_slot (λ q. k (f q)) val xs))
        ≡ before_slot k val (map f xs) ++ (f x ∷ after_slot k val (map f xs))
  map-slots x xs = elim (Bool-cases (ltb_ℤ (pos 1) val)) [
    | inl h ↦ rw (h, map-append, map-take_below xs, map-drop_below xs) refl
    | inr h ↦ rw (h, map-append) refl
  ]

module _ (P : Str → Type 0) (k : Str → ℤ) (val : ℤ) where
  All-take_below : (xs : List Str) → All P xs → All P (take_below k val xs)
  All-take_below [] h = tt
  All-take_below (x ∷ xs) h = elim (Bool-cases (ltb_ℤ (k x) val)) [
    | inl e ↦ rw e (h.0, All-take_below xs h.1)
    | inr e ↦ rw e tt
  ]

  All-drop_below : (xs : List Str) → All P xs → All P (drop_below k val xs)
  All-drop_below [] h = tt
  All-drop_below (x ∷ xs) h = elim (Bool-cases (ltb_ℤ (k x) val)) [
    | inl e ↦ rw e (All-drop_below xs h.1)
    | inr e ↦ rw e h
  ]

  pub All-slots :
      (x : Str) (xs : List Str)
      → P x
      → All P xs
      → All P (before_slot k val xs ++ (x ∷ after_slot k val xs))
  All-slots x xs px h = elim (Bool-cases (ltb_ℤ (pos 1) val)) [
    | inl e ↦ rw e (
        All-append P (take_below k val xs) (x ∷ drop_below k val xs) (All-take_below xs h)
          (px, All-drop_below xs h))
    | inr e ↦ rw e (All-append P xs (x ∷ []) h (px, tt))
  ]

-- A node that is not in the list can be given another address.
pub map-agree :
    (f g : Ptr → Str) (xs : List Ptr)
    → ((p : Ptr) → mem p xs ≡ true → f p ≡ g p)
    → map f xs ≡ map g xs
map-agree f g [] h = refl
map-agree f g (x ∷ xs) h =
    rw (h x (ground arith), map-agree f g xs (λ p i. h p (ground arith))) refl

pub holder-has :
    (ip : Str) (addr : Ptr → Str) (xs : List Ptr)
    → AllLive xs
    → (holder ip addr xs == null) ≡ not (set_has ip (map addr xs))
unfolding set_has
holder-has ip addr [] live = refl
holder-has ip addr (x ∷ xs) live = elim (Bool-cases (str_eq ip (addr x))) [
  | inl h ↦ rw h (ground arith)
  | inr h ↦ rw h (holder-has ip addr xs live.1)
]

-- The address of a node is among the addresses.
pub set_has-map :
    (f : Ptr → Str) (p : Ptr) (ps : List Ptr) → mem p ps ≡ true → set_has (f p) (map f ps) ≡ true
unfolding set_has
set_has-map f p [] i = cc
set_has-map f p (x ∷ ps) i = elim (Bool-cases (p == x)) [
  | inl same ↦ let e : p ≡ x = ground arith in rw (e, str_eq_refl (f x)) refl
  | inr other ↦ ground (arith, set_has-map f p ps (ground arith))
]
