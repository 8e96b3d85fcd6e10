-- ===== src/Text/Order.antt =====
-- The order of strings (bytes compared as unsigned, a prefix first), and `std::set<std::string>`
-- as the list of its elements in iteration order.
use dfss.Base.{
  ◌≡◌, refl, sym, subst, inl, inr, Bool, true, false, ◌||◌, ◌&&◌, List, [], ◌∷◌, ◌++◌, arith, ◌==◌,
  ltb, if◌then◌else◌, Bool-cases, All,
}
use dfss.Text.{Str, str_eq, str_eq_iff, str_eq_refl}

unfoldable pub str_lt : Str → Str → Bool
str_lt [] [] = false
str_lt [] (b ∷ t) = true
str_lt (a ∷ s) [] = false
str_lt (a ∷ s) (b ∷ t) = ltb a b || ((a == b) && str_lt s t)

pub str_lt_trans : (s t u : Str) → str_lt s t ≡ true → str_lt t u ≡ true → str_lt s u ≡ true
unfolding str_lt
str_lt_trans [] [] u h k = k
str_lt_trans [] (b ∷ t) [] h k = k
str_lt_trans [] (b ∷ t) (c ∷ u) h k = refl
str_lt_trans (a ∷ s) [] u h k = cc
str_lt_trans (a ∷ s) (b ∷ t) [] h k = k
str_lt_trans (a ∷ s) (b ∷ t) (c ∷ u) h k = ground (arith, str_lt_trans s t u)

pub str_lt_irrefl : (s : Str) → str_lt s s ≡ false
unfolding str_lt
str_lt_irrefl [] = refl
str_lt_irrefl (a ∷ s) = ground (arith, str_lt_irrefl s)

-- Of two different strings one is smaller.
pub str_lt_total : (s t : Str) → str_lt s t ≡ false → str_eq s t ≡ false → str_lt t s ≡ true
unfolding str_lt str_eq
str_lt_total [] [] h k = cc
str_lt_total [] (b ∷ t) h k = cc
str_lt_total (a ∷ s) [] h k = refl
str_lt_total (a ∷ s) (b ∷ t) h k = ground (arith, str_lt_total s t)

-- `ip_s.insert(x)`: in order, and only if it is new.
unfoldable pub set_insert : Str → List Str → List Str
set_insert x [] = x ∷ []
set_insert x (y ∷ ys) =
    if str_eq x y then y ∷ ys else if str_lt x y then x ∷ y ∷ ys else y ∷ set_insert x ys

unfoldable pub set_has : Str → List Str → Bool
set_has x [] = false
set_has x (y ∷ ys) = str_eq x y || set_has x ys

-- Every element is above `x`.
abbrev pub AllAbove : Str → List Str → Type 0
AllAbove x [] = Unit {0}
AllAbove x (y ∷ ys) = (str_lt x y ≡ true) × AllAbove x ys

-- The elements rise strictly: each is there once.
abbrev pub IsRising : List Str → Type 0
IsRising [] = Unit {0}
IsRising (x ∷ xs) = AllAbove x xs × IsRising xs

AllAbove-set_insert :
    (x y : Str) (ys : List Str) → str_lt y x ≡ true → AllAbove y ys → AllAbove y (set_insert x ys)
unfolding set_insert
AllAbove-set_insert x y [] h a = (h, tt)
AllAbove-set_insert x y (z ∷ ys) h a = ground (arith, AllAbove-set_insert x y ys h a.1)

AllAbove-trans : (x y : Str) (ys : List Str) → str_lt x y ≡ true → AllAbove y ys → AllAbove x ys
AllAbove-trans x y [] h a = tt
AllAbove-trans x y (z ∷ ys) h a = (str_lt_trans x y z h a.0, AllAbove-trans x y ys h a.1)

pub set_insert-IsRising : (x : Str) (ys : List Str) → IsRising ys → IsRising (set_insert x ys)
unfolding set_insert
set_insert-IsRising x [] r = (tt, tt)
set_insert-IsRising x (y ∷ ys) r = elim (Bool-cases (str_eq x y)) [
  | inl same ↦ rw same r
  | inr other ↦ elim (Bool-cases (str_lt x y)) [
    | inl below ↦ rw (other, below) ((below, AllAbove-trans x y ys below r.0), r)
    | inr above ↦
        rw (other, above)
          (
            AllAbove-set_insert x y ys (str_lt_total x y above other) r.0,
            set_insert-IsRising x ys r.1,
          )
  ]
]

pub set_has-set_insert :
    (x z : Str) (ys : List Str) → set_has z (set_insert x ys) ≡ (str_eq z x || set_has z ys)
unfolding set_has set_insert
set_has-set_insert x z [] = refl
set_has-set_insert x z (y ∷ ys) =
    ground (arith, set_has-set_insert x z ys, str_eq_iff x y, str_eq_iff z x, str_eq_iff z y)

-- What holds of every element holds of the list.
pub All-of-set_has :
    (P : Str → Type 0) (xs : List Str) → ((x : Str) → set_has x xs ≡ true → P x) → All P xs
unfolding set_has
All-of-set_has P [] h = tt
All-of-set_has P (x ∷ xs) h =
    (h x (rw (str_eq_refl x) refl), All-of-set_has P xs (λ y i. h y (ground arith)))

pub All-at-set_has :
    (P : Str → Type 0) (x : Str) (xs : List Str) → All P xs → set_has x xs ≡ true → P x
unfolding set_has
All-at-set_has P x [] h i = absurd (clash i)
  where
    clash : false ≡ true → ⊥
    clash e = cc
All-at-set_has P x (y ∷ ys) h i = elim (Bool-cases (str_eq x y)) [
  | inl same ↦ subst P (sym ((str_eq_iff x y).0 same)) h.0
  | inr other ↦ All-at-set_has P x ys h.1 (ground arith)
]

pub set_has-append :
    (x : Str) (xs ys : List Str) → set_has x (xs ++ ys) ≡ (set_has x xs || set_has x ys)
unfolding set_has
set_has-append x [] ys = refl
set_has-append x (y ∷ xs) ys = ground (arith, set_has-append x xs ys)
