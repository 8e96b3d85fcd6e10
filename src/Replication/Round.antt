-- ===== src/Replication/Round.antt =====
-- src/client.cpp: a whole round of `monitor`, and the files of the nodes after it.
use dfss.Base.{
  ◌≡◌, refl, sym, ap, ◌∙◌, subst, Bool, true, false, not, ◌&&◌, ◌||◌, List, [], ◌∷◌, ◌++◌, arith,
  Bool-cases, inl, inr, if◌then◌else◌,
}
use dfss.Replication.{Action, uploads, removes}
use dfss.Replication.Removal.{missing}
use dfss.Placement.{has_file, delete_file}
use dfss.Placement.Held.{has_file-delete_file}
use dfss.Text.{Str, str_eq, str_eq_iff, str_eq_sym, str_eq_refl}
use dfss.Text.Order.{set_has}

-- The names in `./uploads/` of each node.
abbrev pub Files : Type 0
Files = Str → List Str

abbrev pub put : Str → Str → Files → Files
put ip name fs = λ i. if str_eq i ip then name ∷ fs i else fs i

abbrev pub remove : Str → Str → Files → Files
remove me name fs = λ i. if str_eq i me then delete_file name (fs i) else fs i

-- What the actions of the node `me` do to the files of all nodes.
abbrev pub perform : Str → List Action → Files → Files
perform me [] fs = fs
perform me (uploads ip name ∷ actions) fs = perform me actions (put ip name fs)
perform me (removes name ∷ actions) fs = perform me actions (remove me name fs)

pub perform-append :
    (me : Str) (xs ys : List Action) (fs : Files)
    → perform me (xs ++ ys) fs ≡ perform me ys (perform me xs fs)
perform-append me [] ys fs = refl
perform-append me (uploads ip name ∷ xs) ys fs = perform-append me xs ys (put ip name fs)
perform-append me (removes name ∷ xs) ys fs = perform-append me xs ys (remove me name fs)

or_true : (c : Bool) → (c || true) ≡ true
or_true true = refl
or_true false = refl

if_or : (c d : Bool) → (if c then true else d) ≡ (c || d)
if_or true d = refl
if_or false d = refl

has-put :
    (ip name i n : Str) (fs : Files)
    → has_file n (put ip name fs i) ≡ ((str_eq i ip && str_eq n name) || has_file n (fs i))
unfolding has_file
has-put ip name i n fs = elim (Bool-cases (str_eq i ip)) [
  | inl same ↦ rw (same, str_eq_sym n name) (if_or (str_eq name n) (has_file n (fs i)))
  | inr other ↦ rw other refl
]

pub has-remove :
    (me name i n : Str) (fs : Files)
    → has_file n (remove me name fs i) ≡ (not (str_eq i me && str_eq n name) && has_file n (fs i))
has-remove me name i n fs = elim (Bool-cases (str_eq i me)) [
  | inl same ↦ rw same (has_file-delete_file name n (fs i))
  | inr other ↦ rw other refl
]

missing-keeps :
    (me name i n : Str) (held : Str → Bool) (ips : List Str) (fs : Files)
    → has_file n (fs i) ≡ true
    → has_file n (perform me (missing held name ips) fs i) ≡ true
missing-keeps me name i n held [] fs h = h
missing-keeps me name i n held (ip ∷ ips) fs h = elim (Bool-cases (held ip)) [
  | inl e ↦ rw e (missing-keeps me name i n held ips fs h)
  | inr e ↦ rw e (
      missing-keeps me name i n held ips (put ip name fs)
        (has-put ip name i n fs ∙ rw h (or_true (str_eq i ip && str_eq n name))))
]

-- After the uploads of a file, its places have it.
missing-gives :
    (me name i : Str) (held : Str → Bool) (ips : List Str) (fs : Files)
    → set_has i ips ≡ true
    → held i ≡ false
    → has_file name (perform me (missing held name ips) fs i) ≡ true
unfolding set_has
missing-gives me name i held [] fs there lacks = absurd (clash there)
  where
    clash : false ≡ true → ⊥
    clash e = cc
missing-gives me name i held (ip ∷ ips) fs there lacks = elim (Bool-cases (str_eq i ip)) [
  | inl same ↦ rw (subst (λ x. held x ≡ false) ((str_eq_iff i ip).0 same) lacks) (
      missing-keeps me name i name held ips (put ip name fs)
        (has-put ip name i name fs ∙ rw (same, str_eq_refl name) refl))
  | inr other ↦
      let later : set_has i ips ≡ true = ground arith in
      elim (Bool-cases (held ip)) [
        | inl e ↦ rw e (missing-gives me name i held ips fs later lacks)
        | inr e ↦ rw e (missing-gives me name i held ips (put ip name fs) later lacks)
      ]
]

-- They change nothing else.
pub missing-other :
    (me name i n : Str) (held : Str → Bool) (ips : List Str) (fs : Files)
    → (str_eq n name && set_has i ips) ≡ false
    → has_file n (perform me (missing held name ips) fs i) ≡ has_file n (fs i)
unfolding set_has
missing-other me name i n held [] fs apart = refl
missing-other me name i n held (ip ∷ ips) fs apart = elim (Bool-cases (held ip)) [
  | inl e ↦ rw e (missing-other me name i n held ips fs (ground arith))
  | inr e ↦
      let skipped : (str_eq i ip && str_eq n name) ≡ false = ground arith in
      rw e (
        missing-other me name i n held ips (put ip name fs) (ground arith)
        ∙ has-put ip name i n fs
        ∙ rw skipped refl)
]

module _ (me : Str) (places : Str → List Str) (files : Files) where
  abbrev pub unneeded : Str → List Action
  unneeded name = if not (set_has me (places name)) then removes name ∷ [] else []

  -- What a round does for each of its files.
  abbrev pub round : List Str → List Action
  round [] = []
  round (name ∷ names) =
      missing (λ ip. has_file name (files ip)) name (places name) ++ (unneeded name ++ round names)

  unneeded-keeps :
      (name i n : Str) (fs : Files)
      → set_has i (places n) ≡ true
      → has_file n (fs i) ≡ true
      → has_file n (perform me (unneeded name) fs i) ≡ true
  unneeded-keeps name i n fs there h = elim (Bool-cases (set_has me (places name))) [
    | inl own ↦ rw own h
    | inr away ↦ rw away (has-remove me name i n fs ∙ rw (apart away, h) refl)
  ]
    where
      clash : false ≡ true → ⊥
      clash e = cc

      apart : set_has me (places name) ≡ false → not (str_eq i me && str_eq n name) ≡ true
      apart away = elim (Bool-cases (str_eq i me && str_eq n name)) [
        | inr e ↦ rw e refl
        | inl e ↦
            let at_me : i ≡ me = (str_eq_iff i me).0 (ground arith) in
            let named : n ≡ name = (str_eq_iff n name).0 (ground arith) in
            absurd (
              clash (
                sym away
                ∙ ap (λ x. set_has x (places name)) (sym at_me)
                ∙ ap (λ x. set_has i (places x)) (sym named)
                ∙ there))
      ]

  pub round_step :
      (name : Str) (names : List Str) (fs : Files)
      → perform me (round (name ∷ names)) fs
        ≡ perform me (round names) (
            perform me
              (unneeded name)
              (perform me (missing (λ ip. has_file name (files ip)) name (places name)) fs))
  round_step name names fs =
      perform-append me (missing (λ ip. has_file name (files ip)) name (places name))
        (unneeded name ++ round names) fs
      ∙ perform-append me (unneeded name) (round names)
          (perform me (missing (λ ip. has_file name (files ip)) name (places name)) fs)

  -- A place that has its file keeps it.
  round-keeps :
      (i n : Str) (names : List Str) (fs : Files)
      → set_has i (places n) ≡ true
      → has_file n (fs i) ≡ true
      → has_file n (perform me (round names) fs i) ≡ true
  round-keeps i n [] fs there h = h
  round-keeps i n (name ∷ names) fs there h =
      ap (λ f. has_file n (f i)) (round_step name names fs)
      ∙ round-keeps i n names _ there (
          unneeded-keeps name i n _ there
            (missing-keeps me name i n (λ ip. has_file name (files ip)) (places name) fs h))

  -- `fs` has what the nodes had at the start, at the places of each file.
  pub round-gives :
      (i n : Str) (names : List Str) (fs : Files)
      → set_has n names ≡ true
      → set_has i (places n) ≡ true
      → (has_file n (files i) ≡ true → has_file n (fs i) ≡ true)
      → has_file n (perform me (round names) fs i) ≡ true
  unfolding set_has
  round-gives i n [] fs listed there had = absurd (clash listed)
    where
      clash : false ≡ true → ⊥
      clash e = cc
  round-gives i n (name ∷ names) fs listed there had =
      ap (λ f. has_file n (f i)) (round_step name names fs) ∙ elim (Bool-cases (str_eq n name)) [
        | inl same ↦
            round-keeps i n names _ there
              (unneeded-keeps name i n _ there (given ((str_eq_iff n name).0 same)))
        | inr other ↦ round-gives i n names _ (ground arith) there (λ h.
            unneeded-keeps name i n _ there
              (missing-keeps me name i n (λ ip. has_file name (files ip)) (places name) fs (had h)))
      ]
    where
      given :
          n ≡ name
          → has_file n
              (perform me (missing (λ ip. has_file name (files ip)) name (places name)) fs i)
            ≡ true
      given same = elim (Bool-cases (has_file n (files i))) [
        | inl held ↦
            missing-keeps me name i n (λ ip. has_file name (files ip)) (places name) fs (had held)
        | inr lacks ↦
            subst
              (λ x.
                has_file x
                  (perform me (missing (λ ip. has_file name (files ip)) name (places name)) fs i)
                ≡ true)
              (sym same)
              (missing-gives me name i (λ ip. has_file name (files ip)) (places name) fs
                (subst (λ x. set_has i (places x) ≡ true) same there)
                (subst (λ x. has_file x (files i) ≡ false) same lacks))
      ]
