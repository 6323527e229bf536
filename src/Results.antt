-- ===== src/Results.antt =====
-- crates/einvoice-results/src/lib.rs: the result messages of the platform and their count checks.
-- The parser of XML is quick-xml, a parameter of Results/Wire, which has the messages on the wire.
pub mod Consistency
pub mod Wire
pub mod Lossless
mod Tests
use native.Mathlib.Decide.{ℕ_discrete}
use tw_einvoice_rs.Base.{
  ℕ, Bool, not, ◌&&◌, Option, none, some, List, [], ◌∷◌, ◌++◌, Str, ℤ, pos, ℤ-discrete, is_negative,
  int_eq, ◌+ℤ◌, wrap_i32, try_unsigned, length, is_empty, ◌==◌, if◌then◌else◌,
}

pub record ResultParty : Type 0 where
  pub party_id : Str
  pub description : Option Str

pub record ResultRoute : Type 0 where
  pub routing_id : Str
  pub description : Option Str

pub record ResultRouting : Type 0 where
  pub from : ResultParty
  pub from_vac : ResultRoute
  pub to : ResultParty
  pub to_vac : ResultRoute

pub record ProcessMessageInfo : Type 0 where
  pub id : Str
  pub size : Str
  pub message_type : Str
  pub service : Str
  pub action : Str

-- `parameters` is an array of five.
pub record ProcessDiagnostic : Type 0 where
  pub code : Str
  pub description : Option Str
  pub parameters : Option Str × Option Str × Option Str × Option Str × Option Str

pub record ProcessResult : Type 0 where
  pub routing : ResultRouting
  pub message : ProcessMessageInfo
  pub diagnostics : List ProcessDiagnostic

pub record SummaryMessageInfo : Type 0 where
  pub id : Str
  pub size : Str
  pub message_type : Str
  pub service : Str
  pub action : Str

pub record InvoiceReference : Type 0 where
  pub reference_number : Str
  pub invoice_date : Str

-- `count` is an `i32`.
pub record ResultDetail : Type 0 where
  pub count : ℤ
  pub invoices : List InvoiceReference

pub record ResultBreakdown : Type 0 where
  pub total : ResultDetail
  pub good : ResultDetail
  pub failed : ResultDetail

pub record SummaryMessage : Type 0 where
  pub info : SummaryMessageInfo
  pub result : ResultBreakdown

pub record SummaryResult : Type 0 where
  pub routing : ResultRouting
  pub messages : List SummaryMessage

-- The derived `PartialEq` of the two messages that are compared.
unfoldable pub ProcessResult-discrete : Discrete ProcessResult
unfolding ℕ_discrete
ProcessResult-discrete = hlevel ℕ_discrete

unfoldable pub SummaryMessage-discrete : Discrete SummaryMessage
unfolding ℕ_discrete ℤ-discrete
SummaryMessage-discrete = hlevel (ℕ_discrete, ℤ-discrete)

pub data ResultBucket : Type 0 where
  total good failed : ResultBucket

pub data SummaryValidationIssue : Type 0 where
  negative_count : ResultBucket → ℤ → SummaryValidationIssue
  total_mismatch : ℤ → ℤ → ℤ → SummaryValidationIssue
  expected_quantity_mismatch : ℕ → ℤ → SummaryValidationIssue
  invoice_list_count_mismatch : ResultBucket → ℤ → ℕ → SummaryValidationIssue

-- `usize::try_from(count).ok() != Some(listed)`.
count_differs : Option ℕ → ℕ → Bool
count_differs none listed = Bool.true
count_differs (some n) listed = not (n == listed)

-- One round of the loop over the three buckets.
unfoldable pub detail_issues : ResultBucket → ResultDetail → List SummaryValidationIssue
unfolding count_differs
detail_issues bucket detail =
    (if is_negative detail.count then negative_count bucket detail.count ∷ [] else [])
    ++ (if not (is_empty detail.invoices)
          && count_differs (try_unsigned detail.count) (length detail.invoices)
        then invoice_list_count_mismatch bucket detail.count (length detail.invoices) ∷ []
        else [])

-- `good.count + failed.count` is an `i32` addition: it wraps in a release build.
unfoldable pub total_issues : ResultBreakdown → List SummaryValidationIssue
total_issues r =
    if not (int_eq r.total.count (wrap_i32 (r.good.count +ℤ r.failed.count)))
    then total_mismatch r.total.count r.good.count r.failed.count ∷ []
    else []

unfoldable pub quantity_issues : Option ℕ → ℤ → List SummaryValidationIssue
quantity_issues none actual = []
quantity_issues (some expected) actual =
    if not (int_eq actual (pos expected))
    then expected_quantity_mismatch expected actual ∷ []
    else []

unfoldable pub validation_issues : SummaryMessage → Option ℕ → List SummaryValidationIssue
validation_issues m expected_quantity =
    detail_issues total m.result.total
    ++ (detail_issues good m.result.good
        ++ (detail_issues failed m.result.failed
            ++ (total_issues m.result ++ quantity_issues expected_quantity m.result.total.count)))

unfoldable pub is_consistent : SummaryMessage → Option ℕ → Bool
is_consistent m expected_quantity = is_empty (validation_issues m expected_quantity)
