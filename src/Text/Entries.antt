-- ===== src/Text/Entries.antt =====
-- What holds of the entries of a `std::map<std::string, V>`, found by key or listed.
use dfss.Base.{
  ◌≡◌, refl, sym, ◌∙◌, subst, none_or_some, some, List, [], ◌∷◌, All, Bool-cases, inl, inr,
}
use dfss.Text.{Str, str_eq, str_eq_refl, eq_of_str_eq}
use dfss.Text.Map.{map_find, map_insert, map_modify, find-above, KeysAbove, IsSorted}
use dfss.Text.Order.{str_lt}

module _ {V : Type 0} (P : Str × V → Type 0) where
  -- What holds of every entry that is found holds of all of them.
  pub All-of-find :
      (m : List (Str × V))
      → IsSorted m
      → ((x : Str) (v : V) → map_find x m ≡ some v → P (x, v))
      → All P m
  unfolding map_find
  All-of-find [] s h = tt
  All-of-find ((ip, w) ∷ m) s h =
      (h ip w (rw (str_eq_refl ip) refl), All-of-find m s.1 (λ x v i. h x v (later x v i)))
    where
      later : (x : Str) (v : V) → map_find x m ≡ some v → map_find x ((ip, w) ∷ m) ≡ some v
      later x v i = elim (Bool-cases (str_eq x ip)) [
        | inr other ↦ rw other i
        | inl same ↦ absurd (
            none_or_some (
              sym (find-above x m (subst (λ y. KeysAbove y m) (sym (eq_of_str_eq x ip same)) s.0))
              ∙ i))
      ]

module _ {V : Type 0} (P : Str × V → Type 0) where
  pub insert-All :
      (k : Str) (v : V) (m : List (Str × V)) → P (k, v) → All P m → All P (map_insert k v m)
  unfolding map_insert
  insert-All k v [] new h = (new, tt)
  insert-All k v ((j, w) ∷ m) new h = elim (Bool-cases (str_eq k j)) [
    | inl same ↦ rw same h
    | inr other ↦ elim (Bool-cases (str_lt k j)) [
      | inl below ↦ rw (other, below) (new, h)
      | inr above ↦ rw (other, above) (h.0, insert-All k v m new h.1)
    ]
  ]

  pub modify-All :
      (f : V → V) (k : Str) (m : List (Str × V))
      → ((x : Str) (v : V) → P (x, v) → P (x, f v))
      → All P m
      → All P (map_modify f k m)
  unfolding map_modify
  modify-All f k [] keeps h = tt
  modify-All f k ((j, w) ∷ m) keeps h = elim (Bool-cases (str_eq k j)) [
    | inl same ↦ rw same (keeps j w h.0, h.1)
    | inr other ↦ rw other (h.0, modify-All f k m keeps h.1)
  ]
