-- ===== src/System/Settling.antt =====
-- src/client.cpp: the updates of one run of `update_nodes`, on their way to the processes.
use dfss.Base.{
  ℕ, ◌≡◌, refl, sym, ap, ◌∙◌, ◌⊎◌, inl, inr, true, false, some, Option, List, [], ◌∷◌, Bool-cases,
  All, ◌>>=◌,
}
use dfss.Text.{Str, str_eq, str_eq_refl, str_eq_iff}
use dfss.Text.Split.{Boost}
use dfss.Members.{drop_last_empty, update_handler}
use dfss.System.{Packet, System, put_node, update_port, serve_packet, deliver, updater}

-- `p` is one of the datagrams.
abbrev pub Among : Packet → List Packet → Type 0
Among p [] = ⊥
Among p (x ∷ xs) = (p ≡ x) ⊎ Among p xs

-- The datagrams arrive one after the other.
unfoldable pub deliver_all : Boost → ℕ → List Packet → System → Option System
deliver_all b now [] s = some s
deliver_all b now (p ∷ ps) s = do s' ← deliver b (some p) now s; deliver_all b now ps s'

-- An update for a process other than the introducer's, which for `host` is `request`.
abbrev pub IsUpdateOf : Str → Str → Str → Packet → Type 0
IsUpdateOf introducer host request p =
    (p.port_no ≡ update_port)
    × (str_eq p.host introducer ≡ false)
    × ((str_eq p.host host ≡ false) ⊎ (p.request ≡ request))

-- The process at `host` has the neighbours that `request` names.
abbrev pub Holds : Boost → Str → Str → System → Type 0
Holds b host request s =
    (s.nodes host).local_neighbour_list ≡ drop_last_empty (b.split b';' request)

-- Some of the datagrams is for `host`.
abbrev pub Reaches : Str → List Packet → Type 0
Reaches host ps = (p : Packet) × Among p ps × (p.host ≡ host)

module _ (b : Boost) (now : ℕ) (introducer host request : Str) where
  abbrev after_update : Packet → System → System
  after_update p s = put_node p.host (update_handler b p.request (s.nodes p.host)).0 s

  deliver_update :
      (p : Packet) (s : System)
      → s.introducer ≡ introducer
      → IsUpdateOf introducer host request p
      → deliver b (some p) now s ≡ some (after_update p s)
  unfolding deliver serve_packet updater
  deliver_update p s at (port, other, h) = rw (port, ap (λ x. str_eq p.host x) at ∙ other) refl

  update_Holds :
      (p : Packet) (s : System)
      → IsUpdateOf introducer host request p
      → (Holds b host request s) ⊎ (p.host ≡ host)
      → Holds b host request (after_update p s)
  unfolding update_handler
  update_Holds p s (port, other, h) known = elim (Bool-cases (str_eq host p.host)) [
    | inl same ↦
        rw same
          (ap (λ t. drop_last_empty (b.split b';' t)) (asked h ((str_eq_iff host p.host).0 same)))
    | inr apart ↦ rw apart (kept known apart)
  ]
    where
      clash : false ≡ true → ⊥
      clash e = cc

      asked :
          (str_eq p.host host ≡ false) ⊎ (p.request ≡ request) → host ≡ p.host → p.request ≡ request
      asked (inl differs) e =
          absurd (clash (sym differs ∙ ap (λ x. str_eq x host) (sym e) ∙ str_eq_refl host))
      asked (inr same) e = same

      kept :
          (Holds b host request s) ⊎ (p.host ≡ host)
          → str_eq host p.host ≡ false
          → Holds b host request s
      kept (inl holds) apart = holds
      kept (inr e) apart = absurd (clash (sym apart ∙ ap (λ x. str_eq host x) e ∙ str_eq_refl host))

  pub deliver_all-Holds :
      (ps : List Packet) (s : System)
      → s.introducer ≡ introducer
      → All (IsUpdateOf introducer host request) ps
      → (Holds b host request s) ⊎ Reaches host ps
      → (s' : System) × (deliver_all b now ps s ≡ some s') × Holds b host request s'
  unfolding deliver_all
  deliver_all-Holds [] s at h (inl holds) = (s, refl, holds)
  deliver_all-Holds [] s at h (inr (p, none_left, e)) = absurd none_left
  deliver_all-Holds (p ∷ ps) s at h known =
      let (s', run, holds) = deliver_all-Holds ps (after_update p s) at h.1 (later known) in
      (s', rw (deliver_update p s at h.0) run, holds)
    where
      later :
          (Holds b host request s) ⊎ Reaches host (p ∷ ps)
          → (Holds b host request (after_update p s)) ⊎ Reaches host ps
      later (inl holds) = inl (update_Holds p s h.0 (inl holds))
      later (inr (q, inl e, at_host)) =
          inl (update_Holds p s h.0 (inr (ap (λ x. x.host) (sym e) ∙ at_host)))
      later (inr (q, inr i, at_host)) = inr (q, i, at_host)
