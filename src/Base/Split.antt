-- ===== src/Base/Split.antt =====
-- Splitting at a character, and joining: `str::split`, `join`, `rsplit_once` and what they undo.
use Prim.Native.Nat.{ℕ}
use mathlib.Core.Path.{◌≡◌, refl}
use mathlib.Core.Option.{Option, none, some}
use mathlib.Core.List.{List, [], ◌∷◌, ◌++◌}
use native.Mathlib.Omega.{arith}
use tw_einvoice_rs.Base.Tests.{◌==◌, if◌then◌else◌}
use tw_einvoice_rs.Base.Text.{Str, Lacks}

abbrev pub cons_head : ℕ → List Str → List Str
cons_head d [] = (d ∷ []) ∷ []
cons_head d (p ∷ ps) = (d ∷ p) ∷ ps

-- `s.split(c)`: one part more than there are separators.
abbrev pub split : ℕ → Str → List Str
split c [] = [] ∷ []
split c (d ∷ s) = let rest = split c s in if d == c then [] ∷ rest else cons_head d rest

abbrev pub join : ℕ → List Str → Str
join c [] = []
join c (p ∷ []) = p
join c (p ∷ q ∷ ps) = p ++ c ∷ join c (q ∷ ps)

-- `s.rsplit_once(c)`: what is before and after the last separator.
abbrev pub extend_or : ℕ → ℕ → Str → Option (Str × Str) → Option (Str × Str)
extend_or c d s (some (a, b)) = some (d ∷ a, b)
extend_or c d s none = if d == c then some ([], s) else none

abbrev pub rsplit_once : ℕ → Str → Option (Str × Str)
rsplit_once c [] = none
rsplit_once c (d ∷ s) = extend_or c d s (rsplit_once c s)

abbrev NonEmpty : List Str → Type 0
NonEmpty [] = ⊥
NonEmpty (p ∷ ps) = Unit

cons_head-NonEmpty : (d : ℕ) (ps : List Str) → NonEmpty (cons_head d ps)
cons_head-NonEmpty d [] = tt
cons_head-NonEmpty d (p ∷ ps) = tt

split-NonEmpty : (c : ℕ) (s : Str) → NonEmpty (split c s)
split-NonEmpty c [] = tt
split-NonEmpty c (d ∷ s) = ground (arith, cons_head-NonEmpty d (split c s))

join-cons_head : (c d : ℕ) (ps : List Str) → join c (cons_head d ps) ≡ d ∷ join c ps
join-cons_head c d [] = refl
join-cons_head c d (p ∷ []) = refl
join-cons_head c d (p ∷ q ∷ ps) = refl

join-nil : (c : ℕ) (ps : List Str) → NonEmpty ps → join c ([] ∷ ps) ≡ c ∷ join c ps
join-nil c [] h = absurd h
join-nil c (p ∷ ps) h = refl

pub join-split : (c : ℕ) (s : Str) → join c (split c s) ≡ s
join-split c [] = refl
join-split c (d ∷ s) = ground (
  arith,
  join-split c s,
  join-nil c (split c s) (split-NonEmpty c s),
  join-cons_head c d (split c s),
)

pub split-of_Lacks : (c : ℕ) (p : Str) → Lacks c p → split c p ≡ p ∷ []
split-of_Lacks c [] h = refl
split-of_Lacks c (d ∷ p) h = ground (arith, split-of_Lacks c p h.1)

pub split-append : (c : ℕ) (p s : Str) → Lacks c p → split c (p ++ c ∷ s) ≡ p ∷ split c s
split-append c [] s h = ground arith
split-append c (d ∷ p) s h = ground (arith, split-append c p s h.1)

pub rsplit_once-of_Lacks : (c : ℕ) (s : Str) → Lacks c s → rsplit_once c s ≡ none
rsplit_once-of_Lacks c [] h = refl
rsplit_once-of_Lacks c (d ∷ s) h = ground (arith, rsplit_once-of_Lacks c s h.1)

pub rsplit_once-append : (c : ℕ) (a b : Str) → Lacks c b → rsplit_once c (a ++ c ∷ b) ≡ some (a, b)
rsplit_once-append c [] b h = ground (arith, rsplit_once-of_Lacks c b h)
rsplit_once-append c (d ∷ a) b h = ground (arith, rsplit_once-append c a b h)

extend_or-append :
    (c d : ℕ) (s : Str) (o : Option (Str × Str)) {a b : Str}
    → ((a b : Str) → o ≡ some (a, b) → s ≡ a ++ c ∷ b)
    → extend_or c d s o ≡ some (a, b)
    → d ∷ s ≡ a ++ c ∷ b
extend_or-append c d s (some (x, y)) k h = let e = k x y refl in cc
extend_or-append c d s none k h = ground arith

pub rsplit_once-some :
    (c : ℕ) (s : Str) {a b : Str} → rsplit_once c s ≡ some (a, b) → s ≡ a ++ c ∷ b
rsplit_once-some c [] h = cc
rsplit_once-some c (d ∷ s) h =
    extend_or-append c d s (rsplit_once c s) (λ a b e. rsplit_once-some c s e) h
