-- ===== src/Text/Map.antt =====
-- `std::map<std::string, V>` as the list of its pairs in iteration order.
use mathlib.Core.Option
use dfss.Base.{
  ◌≡◌, refl, inl, inr, true, false, Option, none, some, List, [], ◌∷◌, arith, if◌then◌else◌,
  Bool-cases,
}
use dfss.Text.{Str, str_eq, str_eq_iff}
use dfss.Text.Order.{str_lt, str_lt_trans, str_lt_irrefl, str_lt_total}

ne_of_lt : (k j : Str) → str_lt k j ≡ true → str_eq k j ≡ false
ne_of_lt k j h = elim (Bool-cases (str_eq k j)) [
  | inr e ↦ e
  | inl e ↦ ground (arith, str_eq_iff k j, str_lt_irrefl k)
]

module _ {V : Type 0} where
  -- `m.find(k)`: `none` is `m.end()`.
  unfoldable pub map_find : Str → List (Str × V) → Option V
  map_find k [] = none
  map_find k ((j, w) ∷ m) = if str_eq k j then some w else map_find k m

  -- `m.insert({k, v})`: a key that is there keeps its value.
  unfoldable pub map_insert : Str → V → List (Str × V) → List (Str × V)
  map_insert k v [] = (k, v) ∷ []
  map_insert k v ((j, w) ∷ m) =
      if str_eq k j
      then (j, w) ∷ m
      else if str_lt k j
      then (k, v) ∷ (j, w) ∷ m
      else (j, w) ∷ map_insert k v m

  -- A change of `it->second` at the key.
  unfoldable pub map_modify : (V → V) → Str → List (Str × V) → List (Str × V)
  map_modify f k [] = []
  map_modify f k ((j, w) ∷ m) = if str_eq k j then (j, f w) ∷ m else (j, w) ∷ map_modify f k m

  -- `m[k] = v`
  unfoldable pub map_set : Str → V → List (Str × V) → List (Str × V)
  map_set k v [] = (k, v) ∷ []
  map_set k v ((j, w) ∷ m) =
      if str_eq k j
      then (j, v) ∷ m
      else if str_lt k j
      then (k, v) ∷ (j, w) ∷ m
      else (j, w) ∷ map_set k v m

  abbrev pub KeysAbove : Str → List (Str × V) → Type 0
  KeysAbove k [] = Unit {0}
  KeysAbove k ((j, w) ∷ m) = (str_lt k j ≡ true) × KeysAbove k m

  -- The keys rise strictly.
  abbrev pub IsSorted : List (Str × V) → Type 0
  IsSorted [] = Unit {0}
  IsSorted ((j, w) ∷ m) = KeysAbove j m × IsSorted m

  KeysAbove-trans :
      (k j : Str) (m : List (Str × V)) → str_lt k j ≡ true → KeysAbove j m → KeysAbove k m
  KeysAbove-trans k j [] h a = tt
  KeysAbove-trans k j ((i, w) ∷ m) h a = (str_lt_trans k j i h a.0, KeysAbove-trans k j m h a.1)

  pub find-above : (k : Str) (m : List (Str × V)) → KeysAbove k m → map_find k m ≡ none
  unfolding map_find
  find-above k [] a = refl
  find-above k ((j, w) ∷ m) a = rw (ne_of_lt k j a.0) (find-above k m a.1)

  KeysAbove-insert :
      (k j : Str) (v : V) (m : List (Str × V))
      → str_lt j k ≡ true
      → KeysAbove j m
      → KeysAbove j (map_insert k v m)
  unfolding map_insert
  KeysAbove-insert k j v [] h a = (h, tt)
  KeysAbove-insert k j v ((i, w) ∷ m) h a = ground (arith, KeysAbove-insert k j v m h a.1)

  pub map_insert-IsSorted :
      (k : Str) (v : V) (m : List (Str × V)) → IsSorted m → IsSorted (map_insert k v m)
  unfolding map_insert
  map_insert-IsSorted k v [] s = (tt, tt)
  map_insert-IsSorted k v ((j, w) ∷ m) s = elim (Bool-cases (str_eq k j)) [
    | inl same ↦ rw same s
    | inr other ↦ elim (Bool-cases (str_lt k j)) [
      | inl below ↦ rw (other, below) ((below, KeysAbove-trans k j m below s.0), s)
      | inr above ↦
          rw (other, above)
            (
              KeysAbove-insert k j v m (str_lt_total k j above other) s.0,
              map_insert-IsSorted k v m s.1,
            )
    ]
  ]

  KeysAbove-modify :
      (f : V → V) (k j : Str) (m : List (Str × V)) → KeysAbove j m → KeysAbove j (map_modify f k m)
  unfolding map_modify
  KeysAbove-modify f k j [] a = tt
  KeysAbove-modify f k j ((i, w) ∷ m) a = ground (arith, KeysAbove-modify f k j m a.1)

  pub map_modify-IsSorted :
      (f : V → V) (k : Str) (m : List (Str × V)) → IsSorted m → IsSorted (map_modify f k m)
  unfolding map_modify
  map_modify-IsSorted f k [] s = tt
  map_modify-IsSorted f k ((j, w) ∷ m) s =
      ground (arith, map_modify-IsSorted f k m s.1, KeysAbove-modify f k j m s.0)

  pub find-modify :
      (f : V → V) (k i : Str) (m : List (Str × V))
      → map_find i (map_modify f k m)
        ≡ (if str_eq i k then Option.map f (map_find k m) else map_find i m)
  unfolding map_find map_modify
  find-modify f k i [] = ground arith
  find-modify f k i ((j, w) ∷ m) =
      ground (arith, find-modify f k i m, str_eq_iff k j, str_eq_iff i j, str_eq_iff i k)

  -- The value that `insert` leaves at the key.
  abbrev pub kept : V → Option V → Option V
  kept v none = some v
  kept v (some w) = some w

  pub find-insert :
      (k i : Str) (v : V) (m : List (Str × V))
      → IsSorted m
      → map_find i (map_insert k v m) ≡ (if str_eq i k then kept v (map_find k m) else map_find i m)
  unfolding map_find map_insert
  find-insert k i v [] s = ground arith
  find-insert k i v ((j, w) ∷ m) s = ground (
    arith,
    find-insert k i v m s.1,
    str_eq_iff k j,
    str_eq_iff i j,
    str_eq_iff i k,
    find-above k m,
    KeysAbove-trans k j m,
    s.0,
  )

  KeysAbove-set :
      (k j : Str) (v : V) (m : List (Str × V))
      → str_lt j k ≡ true
      → KeysAbove j m
      → KeysAbove j (map_set k v m)
  unfolding map_set
  KeysAbove-set k j v [] h a = (h, tt)
  KeysAbove-set k j v ((i, w) ∷ m) h a = ground (arith, KeysAbove-set k j v m h a.1)

  pub map_set-IsSorted :
      (k : Str) (v : V) (m : List (Str × V)) → IsSorted m → IsSorted (map_set k v m)
  unfolding map_set
  map_set-IsSorted k v [] s = (tt, tt)
  map_set-IsSorted k v ((j, w) ∷ m) s = elim (Bool-cases (str_eq k j)) [
    | inl same ↦ rw same s
    | inr other ↦ elim (Bool-cases (str_lt k j)) [
      | inl below ↦ rw (other, below) ((below, KeysAbove-trans k j m below s.0), s)
      | inr above ↦
          rw (other, above)
            (KeysAbove-set k j v m (str_lt_total k j above other) s.0, map_set-IsSorted k v m s.1)
    ]
  ]

  pub find-set :
      (k i : Str) (v : V) (m : List (Str × V))
      → map_find i (map_set k v m) ≡ (if str_eq i k then some v else map_find i m)
  unfolding map_find map_set
  find-set k i v [] = refl
  find-set k i v ((j, w) ∷ m) =
      ground (arith, find-set k i v m, str_eq_iff k j, str_eq_iff i j, str_eq_iff i k)
