-- ===== src/Ring/Unique.antt =====
-- src/virtual_ring.cpp: no address is twice in a ring.
use dfss.Base.{
  ◌≡◌, refl, sym, ap, ◌∙◌, subst, true, false, ◌||◌, List, [], ◌∷◌, ◌++◌, arith, ◌==◌, leb, length,
  map, Bool-cases, inl, inr,
}
use dfss.Text.{Str, str_eq, str_eq_sym}
use dfss.Text.Order.{set_has, set_has-append}
use dfss.Text.Split.{Boost}
use dfss.Node.{Ptr}
use dfss.Ring.Search.{before_slot, after_slot, before-append-after, number}
use dfss.Ring.Shape.{mem}
use dfss.Ring.Spec.{join_spec, leave_spec, erase, set_has-map}

abbrev pub IsUnique : List Str → Type 0
IsUnique [] = Unit {0}
IsUnique (x ∷ xs) = (set_has x xs ≡ false) × IsUnique xs

between-IsUnique :
    (x : Str) (xs ys : List Str)
    → IsUnique (xs ++ ys)
    → set_has x (xs ++ ys) ≡ false
    → IsUnique (xs ++ (x ∷ ys))
unfolding set_has
between-IsUnique x [] ys u new = (new, u)
between-IsUnique x (y ∷ xs) ys u new = (
  set_has-append y xs (x ∷ ys) ∙ ground (arith, set_has-append y xs ys, str_eq_sym x y, u.0),
  between-IsUnique x xs ys u.1 (ground arith),
)

between_has :
    (z x : Str) (xs ys : List Str)
    → set_has z (xs ++ (x ∷ ys)) ≡ (str_eq z x || set_has z (xs ++ ys))
unfolding set_has
between_has z x xs ys = set_has-append z xs (x ∷ ys) ∙ ground (arith, set_has-append z xs ys)

pub join_spec-IsUnique :
    (b : Boost) (ip : Str) (ips : List Str) → IsUnique ips → IsUnique (join_spec b ip ips)
unfolding set_has
join_spec-IsUnique b ip [] u = tt
join_spec-IsUnique b ip (first ∷ rest) u = elim (Bool-cases (set_has ip (first ∷ rest))) [
  | inl h ↦ rw h u
  | inr h ↦
      let xs = before_slot (number b) (number b ip) rest in
      let ys = after_slot (number b) (number b ip) rest in
      let whole : xs ++ ys ≡ rest = before-append-after (number b) (number b ip) rest in
      rw h (
        between_has first ip xs ys ∙ rw whole (ground (arith, str_eq_sym ip first, u.0)),
        between-IsUnique ip xs ys (subst IsUnique (sym whole) u.1)
            (ap (set_has ip) whole ∙ ground arith),
      )
]

erase_has : (z ip : Str) (xs : List Str) → set_has z xs ≡ false → set_has z (erase ip xs) ≡ false
unfolding set_has
erase_has z ip [] h = refl
erase_has z ip (x ∷ xs) h = elim (Bool-cases (str_eq ip x)) [
  | inl e ↦ rw e (ground arith)
  | inr e ↦ rw e (ground (arith, erase_has z ip xs))
]

erase-IsUnique : (ip : Str) (xs : List Str) → IsUnique xs → IsUnique (erase ip xs)
erase-IsUnique ip [] u = tt
erase-IsUnique ip (x ∷ xs) u = elim (Bool-cases (str_eq ip x)) [
  | inl e ↦ rw e u.1
  | inr e ↦ rw e (erase_has x ip xs u.0, erase-IsUnique ip xs u.1)
]

pub leave_spec-IsUnique : (ip : Str) (ips : List Str) → IsUnique ips → IsUnique (leave_spec ip ips)
leave_spec-IsUnique ip [] u = tt
leave_spec-IsUnique ip (first ∷ rest) u = elim (Bool-cases (leb (length rest) 1)) [
  | inl few ↦ rw few u
  | inr many ↦ rw many (erase_has first ip rest u.0, erase-IsUnique ip rest u.1)
]

-- A node is the only one with its address.
pub IsUnique-node :
    (f : Ptr → Str) (xs : List Ptr) (p q : Ptr)
    → IsUnique (map f xs)
    → mem p xs ≡ true
    → mem q xs ≡ true
    → f p ≡ f q
    → p ≡ q
IsUnique-node f [] p q u i j e = cc
IsUnique-node f (x ∷ xs) p q u i j e = elim (Bool-cases (p == x)) [
  | inl ep ↦ elim (Bool-cases (q == x)) [
    | inl eq ↦ ground arith
    | inr nq ↦ absurd (apart p q ep (ground arith) e)
  ]
  | inr np ↦ elim (Bool-cases (q == x)) [
    | inl eq ↦ absurd (apart q p eq (ground arith) (sym e))
    | inr nq ↦ IsUnique-node f xs p q u.1 (ground arith) (ground arith) e
  ]
]
  where
    clash : false ≡ true → ⊥
    clash h = cc

    apart : (p q : Ptr) → (p == x) ≡ true → mem q xs ≡ true → f p ≡ f q → ⊥
    apart p q ep j e =
        let same : p ≡ x = ground arith in
        let there : set_has (f x) (map f xs) ≡ true =
          subst (λ a. set_has a (map f xs) ≡ true) (sym e ∙ ap f same) (set_has-map f q xs j) in
        clash (sym u.0 ∙ there)
