-- ===== src/Ring/History.antt =====
-- Any sequence of JOIN and LEAVE requests at the introducer of src/client.cpp.
use dfss.Base.{
  ◌≡◌, refl, sym, ap, subst, false, Option, some, List, [], ◌∷◌, arith, length, Bool-cases, ◌>>=◌,
  leb, All, inl, inr,
}
use dfss.Text.{Str, str_eq, codes}
use dfss.Text.Order.{set_has}
use dfss.Text.Split.{Boost}
use dfss.Node.{VirtualRing, virtual_ring}
use dfss.Introducer.{intro_handler}
use dfss.Introducer.Joining.{join-ring}
use dfss.Introducer.Leaving.{leave-answered}
use dfss.Ring.Search.{HasOctet}
use dfss.Ring.Spec.{join_spec, leave_spec, Represents}
use dfss.Ring.Splice.{Yields, Yields-some}

-- A request to `intro_handler`, with the sender's address.
pub data Request : Type 0 where
  joins : Str → Request
  leaves : Str → Request

abbrev head_or : List Str → Str
head_or [] = []
head_or (x ∷ xs) = x

abbrev rest_of : List Str → List Str
rest_of [] = []
rest_of (x ∷ xs) = xs

module _ (b : Boost) where
  -- The ring that the handler leaves behind.
  unfoldable pub serve : Request → VirtualRing → Option VirtualRing
  serve (joins ip) r = do answer ← intro_handler b (codes "JOIN") ip r; some answer.ring
  serve (leaves ip) r = do answer ← intro_handler b (codes "LEAVE") ip r; some answer.ring

  unfoldable pub serve_all : List Request → VirtualRing → Option VirtualRing
  serve_all [] r = some r
  serve_all (q ∷ qs) r = do r' ← serve q r; serve_all qs r'

  abbrev pub serve_spec : Request → List Str → List Str
  serve_spec (joins ip) ips = join_spec b ip ips
  serve_spec (leaves ip) ips = leave_spec ip ips

  abbrev pub serve_all_spec : List Request → List Str → List Str
  serve_all_spec [] ips = ips
  serve_all_spec (q ∷ qs) ips = serve_all_spec qs (serve_spec q ips)

  -- The sender has an address of four fields, and the introducer, at `first`, does not leave.
  abbrev pub Admissible : Str → Request → Type 0
  Admissible first (joins ip) = HasOctet b ip
  Admissible first (leaves ip) = str_eq ip first ≡ false

  pub virtual_ring-Represents :
      (first : Str) → HasOctet b first → Represents b (virtual_ring first) (first ∷ [])
  unfolding virtual_ring
  virtual_ring-Represents first h = record {
    nodes = [];
    ring = inl (
      refl,
      record {
        counted = refl;
        live = (omega arith, omega arith);
        next1 = refl;
        next2 = refl;
        prev1 = refl;
        prev2 = refl;
      },
    );
    addrs = refl;
    octets = (h, tt);
  }

  -- The introducer stays first.
  pub join_spec-first :
      (ip first : Str) (rest : List Str)
      → (rest' : List Str) × (join_spec b ip (first ∷ rest) ≡ first ∷ rest')
  join_spec-first ip first rest = elim (Bool-cases (set_has ip (first ∷ rest))) [
    | inl h ↦ (rest, rw h refl)
    | inr h ↦ (rest_of (join_spec b ip (first ∷ rest)), rw h refl)
  ]

  pub leave_spec-first :
      (ip first : Str) (rest : List Str)
      → (rest' : List Str) × (leave_spec ip (first ∷ rest) ≡ first ∷ rest')
  leave_spec-first ip first rest = elim (Bool-cases (leb (length rest) 1)) [
    | inl h ↦ (rest, rw h refl)
    | inr h ↦ (rest_of (leave_spec ip (first ∷ rest)), rw h refl)
  ]

  serve-refines :
      (q : Request) (r : VirtualRing) (first : Str) (rest : List Str)
      → Admissible first q
      → Represents b r (first ∷ rest)
      → Yields (λ r'. Represents b r' (serve_spec q (first ∷ rest))) (serve q r)
  unfolding serve
  serve-refines (joins ip) r first rest ok rep =
      let (answer, e, rep') =
        Yields-some (intro_handler b (codes "JOIN") ip r)
          (join-ring b ip r (first ∷ rest) rep ok) in
      rw e rep'
  serve-refines (leaves ip) r first rest ok rep =
      let own : r.ip_addr r.introducer ≡ first = ap head_or rep.addrs in
      let (answer, e, left) = Yields-some (intro_handler b (codes "LEAVE") ip r) (
        leave-answered b ip r (first ∷ rest) rep (subst (λ a. str_eq ip a ≡ false) (sym own) ok)) in
      rw e left.represents

  serve_spec-first :
      (q : Request) (first : Str) (rest : List Str)
      → (rest' : List Str) × (serve_spec q (first ∷ rest) ≡ first ∷ rest')
  serve_spec-first (joins ip) first rest = join_spec-first ip first rest
  serve_spec-first (leaves ip) first rest = leave_spec-first ip first rest

  serve_all-refines :
      (qs : List Request) (r : VirtualRing) (first : Str) (rest : List Str)
      → All (Admissible first) qs
      → Represents b r (first ∷ rest)
      → Yields (λ r'. Represents b r' (serve_all_spec qs (first ∷ rest))) (serve_all qs r)
  unfolding serve_all
  serve_all-refines [] r first rest ok rep = rep
  serve_all-refines (q ∷ qs) r first rest ok rep =
      let (r', e, rep') = Yields-some (serve q r) (serve-refines q r first rest ok.0 rep) in
      let (rest', spec) = serve_spec-first q first rest in
      rw (e, spec) (serve_all-refines qs r' first rest' ok.1 (subst (Represents b r') spec rep'))

  -- Let the introducer's address and those of the nodes that join have an octet, and let no LEAVE
  -- come from the introducer's own address. Then any sequence of JOIN and LEAVE requests on the
  -- new ring is handled by `intro_handler` without following a NULL pointer, and ends in a well-formed ring with the addresses that
  -- the specification on lists gives.
  pub history-refines :
      (first : Str) (qs : List Request)
      → HasOctet b first
      → All (Admissible first) qs
      → Yields
          (λ r. Represents b r (serve_all_spec qs (first ∷ [])))
          (serve_all qs (virtual_ring first))
  history-refines first qs h ok =
      serve_all-refines qs (virtual_ring first) first [] ok (virtual_ring-Represents first h)
