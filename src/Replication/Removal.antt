-- ===== src/Replication/Removal.antt =====
-- src/client.cpp, `monitor` with `monitor_handler` at the other end: which files are removed.
use dfss.Base.{
  ◌≡◌, refl, sym, ap, ◌∙◌, Bool, true, false, not, some, none, Option, List, [], ◌∷◌, ◌++◌,
  Bool-cases, inl, inr, if◌then◌else◌, ◌||◌,
}
use dfss.Replication.{Action, uploads, monitor_places}
use dfss.Placement.{monitor_handler, has_file}
use dfss.Text.{Str, str_eq, codes}
use dfss.Text.Split.{Boost, has_byte, split-tokens, tokens, tokens_first, tokens_last}
use dfss.Text.Order.{set_has}

-- What a monitor replies to `me`: the file is there or not, and the asker's own address.
abbrev verdict : Bool → Str
verdict true = codes "YES"
verdict false = codes "NO"

abbrev pub reply : Bool → Str → Str
reply held me = verdict held ++ (b';' ∷ me)

pub reply-tokens :
    (held : Bool) (me : Str)
    → has_byte b';' me ≡ false
    → tokens b';' (reply held me) ≡ verdict held ∷ me ∷ []
reply-tokens true me free =
    tokens_first b';' (codes "YES") me refl ∙ ap (λ t. codes "YES" ∷ t) (tokens_last b';' me free)
reply-tokens false me free =
    tokens_first b';' (codes "NO") me refl ∙ ap (λ t. codes "NO" ∷ t) (tokens_last b';' me free)

-- The uploads that a round makes: to the places that do not hold the file.
abbrev pub missing : (Str → Bool) → Str → List Str → List Action
missing held name [] = []
missing held name (ip ∷ ips) =
    let rest = missing held name ips in if held ip then rest else uploads ip name ∷ rest

abbrev found : Bool → List Action → Option (Bool × List Action)
found f actions = some (f, actions)

either :
    (p q : Bool) (actions : List Action)
    → found (if p then false else not q) actions ≡ found (not (p || q)) actions
either true q actions = refl
either false q actions = refl

module _ (b : Boost) (me name : Str) (free : has_byte b';' me ≡ false) (ask : Str → Str)
    (held : Str → Bool) (said : (ip : Str) → ask ip ≡ reply (held ip) me) where
  step :
      (ip next : Str) (arr : List Str) (required : Bool) (actions : List Action)
      → monitor_places b ask name (next ∷ arr) ≡ found required actions
      → monitor_places b ask name (ip ∷ next ∷ arr)
        ≡ found
            (if str_eq me ip then false else required)
            (if held ip then actions else uploads ip name ∷ actions)
  unfolding monitor_places str_eq
  step ip next arr required actions rest =
      let parsed =
        ap (b.split b';') (said ip)
        ∙ split-tokens b b';' (reply (held ip) me)
        ∙ reply-tokens (held ip) me free in
      elim (Bool-cases (held ip)) [
        | inl there ↦ rw (parsed, rest, there) refl
        | inr gone ↦ rw (parsed, rest, gone) refl
      ]

  places :
      (ips : List Str)
      → monitor_places b ask name (ips ++ ([] ∷ []))
        ≡ found (not (set_has me ips)) (missing held name ips)
  unfolding monitor_places set_has
  places [] = refl
  places (ip ∷ ips) = more ips (places ips)
    where
      more :
          (ts : List Str)
          → monitor_places b ask name (ts ++ ([] ∷ []))
            ≡ found (not (set_has me ts)) (missing held name ts)
          → monitor_places b ask name (ip ∷ (ts ++ ([] ∷ [])))
            ≡ found (not (str_eq me ip || set_has me ts)) (missing held name (ip ∷ ts))
      more [] h =
          step ip [] [] true [] h ∙ either (str_eq me ip) false (missing held name (ip ∷ []))
      more (t ∷ ts) h =
          step ip t (ts ++ ([] ∷ [])) (not (set_has me (t ∷ ts))) (missing held name (t ∷ ts)) h
          ∙ either (str_eq me ip) (set_has me (t ∷ ts)) (missing held name (ip ∷ t ∷ ts))

-- What `monitor_handler` replies to a check.
checked :
    (b : Boost) (me name out : Str) (files : List Str)
    → has_byte b';' name ≡ false
    → monitor_handler b (name ++ codes ";CHECK") me files ≡ some (out, files)
    → out ≡ reply (has_file name files) me
unfolding monitor_handler str_eq
checked b me name out files free e =
    let parsed : b.split b';' (name ++ codes ";CHECK") ≡ name ∷ codes "CHECK" ∷ [] =
      split-tokens b b';' (name ++ codes ";CHECK")
      ∙ tokens_first b';' name (codes "CHECK") free
      ∙ ap (λ t. name ∷ t) (tokens_last b';' (codes "CHECK") refl) in
    elim (Bool-cases (has_file name files)) [
      | inl there ↦ let e' = rw (parsed, there) at e in rw there (sym (ap text e'))
      | inr gone ↦ let e' = rw (parsed, gone) at e in rw gone (sym (ap text e'))
    ]
  where
    text : Option (Str × List Str) → Str
    text none = []
    text (some (t, fs)) = t

-- Let the address `me` and the file name have no `;`, let the master list the places `ips`, and let
-- each place answer the check by `monitor_handler` over its own files. Then the round for that file
-- ends without a fault; it uploads the file to exactly the places that do not hold it, and finds it
-- not required exactly if `me` is none of the places.
pub monitor_places_lem :
    (b : Boost) (me name : Str) (ask : Str → Str) (files : Str → List Str) (ips : List Str)
    → has_byte b';' me ≡ false
    → has_byte b';' name ≡ false
    → ((ip : Str)
        → monitor_handler b (name ++ codes ";CHECK") me (files ip) ≡ some (ask ip, files ip))
    → monitor_places b ask name (ips ++ ([] ∷ []))
      ≡ some (not (set_has me ips), missing (λ ip. has_file name (files ip)) name ips)
monitor_places_lem b me name ask files ips free free_name answers =
    places b me name free ask (λ ip. has_file name (files ip))
      (λ ip. checked b me name (ask ip) (files ip) free_name (answers ip)) ips
