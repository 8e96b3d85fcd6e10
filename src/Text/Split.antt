-- ===== src/Text/Split.antt =====
-- `boost::split(v, s, boost::is_any_of(d))` with a delimiter of one byte. Boost is not part of the
-- repository: the function is a parameter, with the documented behaviour that the code relies on.
-- Joining the tokens by the delimiter gives the string back, no token holds the delimiter, and
-- there is at least one token.
use dfss.Base.{
  ℕ, ◌≡◌, refl, sym, ap, ◌∙◌, inl, inr, ◌≢◌, Bool, false, ◌||◌, List, [], ◌∷◌, ◌++◌, arith, ◌==◌,
  ==_iff, if◌then◌else◌, All, Bool-cases,
}
use dfss.Text.{Str}

-- Does the byte occur in the string?
abbrev pub has_byte : ℕ → Str → Bool
has_byte d [] = false
has_byte d (c ∷ s) = (c == d) || has_byte d s

pub has_byte-append : (d : ℕ) (s t : Str) → has_byte d (s ++ t) ≡ (has_byte d s || has_byte d t)
has_byte-append d [] t = refl
has_byte-append d (c ∷ s) t = ground (arith, has_byte-append d s t)

abbrev pub join : ℕ → List Str → Str
join d [] = []
join d (s ∷ []) = s
join d (s ∷ t ∷ ts) = s ++ (d ∷ join d (t ∷ ts))

abbrev pub Free : ℕ → List Str → Type 0
Free d = All (λ s. has_byte d s ≡ false)

pub record Boost : Type 0 where
  pub split : ℕ → Str → List Str
  pub split_join : (d : ℕ) (s : Str) → join d (split d s) ≡ s
  pub split_free : (d : ℕ) (s : Str) → Free d (split d s)
  pub split_some : (d : ℕ) (s : Str) → split d s ≢ []

unfoldable pub push_byte : ℕ → List Str → List Str
push_byte c [] = (c ∷ []) ∷ []
push_byte c (t ∷ ts) = (c ∷ t) ∷ ts

-- A function with that behaviour.
unfoldable pub tokens : ℕ → Str → List Str
unfolding push_byte
tokens d [] = [] ∷ []
tokens d (c ∷ s) = let rest = tokens d s in if c == d then [] ∷ rest else push_byte c rest

pub tokens_last : (d : ℕ) (s : Str) → has_byte d s ≡ false → tokens d s ≡ s ∷ []
unfolding tokens
tokens_last d [] free = refl
tokens_last d (c ∷ s) free = ground (arith, tokens_last d s)

pub tokens_first :
    (d : ℕ) (s rest : Str) → has_byte d s ≡ false → tokens d (s ++ (d ∷ rest)) ≡ s ∷ tokens d rest
unfolding tokens
tokens_first d [] rest free = ground arith
tokens_first d (c ∷ s) rest free = ground (arith, tokens_first d s rest)

pub tokens-join : (d : ℕ) (ts : List Str) → Free d ts → ts ≢ [] → tokens d (join d ts) ≡ ts
tokens-join d [] free some = absurd (some refl)
tokens-join d (s ∷ []) free some = tokens_last d s free.0
tokens-join d (s ∷ t ∷ ts) free some =
    tokens_first d s (join d (t ∷ ts)) free.0 ∙ ap (◌∷◌ s) (tokens-join d (t ∷ ts) free.1 (λ e. cc))

-- The documented behaviour determines the function.
pub split-tokens : (b : Boost) (d : ℕ) (s : Str) → b.split d s ≡ tokens d s
split-tokens b d s =
    sym (tokens-join d (b.split d s) (b.split_free d s) (b.split_some d s))
    ∙ ap (tokens d) (b.split_join d s)

-- Each string followed by the delimiter, as the handlers write their lists.
unfoldable pub terminated : ℕ → List Str → Str
terminated d [] = []
terminated d (t ∷ ts) = t ++ (d ∷ terminated d ts)

pub tokens-terminated :
    (d : ℕ) (ts : List Str) → Free d ts → tokens d (terminated d ts) ≡ ts ++ ([] ∷ [])
unfolding terminated
tokens-terminated d [] free = unfold tokens in refl
tokens-terminated d (t ∷ ts) free =
    tokens_first d t (terminated d ts) free.0 ∙ ap (◌∷◌ t) (tokens-terminated d ts free.1)

tokens_some : (d : ℕ) (s : Str) → (t : Str) × (ts : List Str) × (tokens d s ≡ t ∷ ts)
unfolding tokens
tokens_some d [] = ([], [], refl)
tokens_some d (c ∷ s) = elim (Bool-cases (c == d)) [
  | inl e ↦ ([], tokens d s, rw e refl)
  | inr e ↦ let (t, ts, p) = tokens_some d s in (c ∷ t, ts, rw (e, p) refl)
]

pub tokens-Free : (d : ℕ) (s : Str) → Free d (tokens d s)
unfolding tokens
tokens-Free d [] = (refl, tt)
tokens-Free d (c ∷ s) =
    let (t, ts, p) = tokens_some d s in
    let f : Free d (t ∷ ts) = rw p at (tokens-Free d s) in
    elim (Bool-cases (c == d)) [ inl e ↦ rw (e, p) (refl, f) | inr e ↦ rw (e, p) (rw e f.0, f.1) ]

pub join-tokens : (d : ℕ) (s : Str) → join d (tokens d s) ≡ s
unfolding tokens
join-tokens d [] = refl
join-tokens d (c ∷ s) =
    let (t, ts, p) = tokens_some d s in
    let f : join d (t ∷ ts) ≡ s = rw p at (join-tokens d s) in
    elim (Bool-cases (c == d)) [
      | inl e ↦ rw (e, p, f) (ap (λ x. x ∷ s) (sym ((==_iff c d).0 e)))
      | inr e ↦ rw (e, p) (join_push c t ts ∙ ap (◌∷◌ c) f)
    ]
  where
    join_push : (c : ℕ) (t : Str) (ts : List Str) → join d ((c ∷ t) ∷ ts) ≡ c ∷ join d (t ∷ ts)
    join_push c t [] = refl
    join_push c t (u ∷ us) = refl

pub tokens-ne-nil : (d : ℕ) (s : Str) → tokens d s ≢ []
tokens-ne-nil d s e = let (t, ts, p) = tokens_some d s in cons_ne (sym p ∙ e)
  where
    cons_ne : {t : Str} {ts : List Str} → (t ∷ ts) ≡ [] → ⊥
    cons_ne e = cc

-- The parameter can be met.
abbrev pub boost : Boost
boost = record {
  split = tokens;
  split_join = join-tokens;
  split_free = tokens-Free;
  split_some = tokens-ne-nil;
}
