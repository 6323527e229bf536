-- ===== src/Mig/Report.antt =====
-- crates/einvoice-mig/src/lib.rs: the reports of validation.
use tw_einvoice_rs.Base.{Bool, true, ◌≡◌, ◌↔◌, refl, Option, List, [], ◌∷◌, ◌++◌, Str, is_empty}
use tw_einvoice_rs.Core.{MigVersion, MessageCode}

pub record MigDocumentMetadata : Type 0 where
  pub version : MigVersion
  pub message_code : MessageCode

pub record ValidationIssue : Type 0 where
  pub path : Option Str
  pub issue_code : Str
  pub message : Str

pub record ValidationReport : Type 0 where
  pub issues : List ValidationIssue

unfoldable pub is_valid : ValidationReport → Bool
is_valid r = is_empty r.issues

-- Conditions side by side, as the checks are made one after the other.
infixr 3 ◌&◌ ◌⊕◌
abbrev pub ◌&◌ : Type 0 → Type 0 → Type 0
P & Q = P × Q

-- No issue is found exactly if the condition holds.
abbrev pub Checks : List ValidationIssue → Type 0 → Type 0
Checks issues P = (issues ≡ []) ↔ P

both_empty : (xs ys : List ValidationIssue) → (xs ++ ys ≡ []) ↔ ((xs ≡ []) × (ys ≡ []))
both_empty [] ys = (λ h. (refl, h), λ h. h.1)
both_empty (x ∷ xs) ys = (λ h. cc, λ h. cc)

pub ◌⊕◌ :
    {xs ys : List ValidationIssue} {P Q : Type 0}
    → Checks xs P
    → Checks ys Q
    → Checks (xs ++ ys) (P & Q)
◌⊕◌ {xs} {ys} p q = (
  λ h. (p.0 ((both_empty xs ys).0 h).0, q.0 ((both_empty xs ys).0 h).1),
  λ h. (both_empty xs ys).1 (p.1 h.0, q.1 h.1),
)

is_empty_iff : (xs : List ValidationIssue) → (is_empty xs ≡ true) ↔ (xs ≡ [])
is_empty_iff [] = (λ h. refl, λ h. refl)
is_empty_iff (x ∷ xs) = (λ h. cc, λ h. cc)

pub is_valid-Checks :
    {P : Type 0} (r : ValidationReport) → Checks r.issues P → (is_valid r ≡ true) ↔ P
unfolding is_valid
is_valid-Checks r c =
    (λ h. c.0 ((is_empty_iff r.issues).0 h), λ p. (is_empty_iff r.issues).1 (c.1 p))
