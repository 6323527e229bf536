-- ===== src/State.antt =====
-- crates/einvoice-state/src/lib.rs: the durable record of one submission. A `&mut self` method
-- returns the new record beside its result; `none` stands for a panic of an `expect`.
pub mod Cases
pub mod Invariant
pub mod Errors
pub mod Replay
pub mod Selection
pub mod Order
mod Tests
use mathlib.Core.Logic.{ite}
use native.Mathlib.Decide.{ℕ_discrete}
use tw_einvoice_rs.Base.{
  ℕ, suc, Bool, true, false, ◌||◌, Option, none, some, List, [], ◌∷◌, ◌++◌, Str, str_eq, ℤ,
  ℤ-discrete, try_unsigned, Result, ok, err, ◌>>=◌, ensure, is_empty, length, ltb, ◌==◌,
  if◌then◌else◌,
}
use tw_einvoice_rs.Results.{
  InvoiceReference, ProcessResult, ProcessResult-discrete, SummaryMessage, SummaryMessage-discrete,
  SummaryResult, SummaryValidationIssue, validation_issues,
}

pub data TransportState : Type 0 where
  created prepared uploaded enqueued process_observed summary_observed : TransportState

-- The derived `Ord`: the order of declaration.
abbrev pub rank : TransportState → ℕ
rank created = 0
rank prepared = 1
rank uploaded = 2
rank enqueued = 3
rank process_observed = 4
rank summary_observed = 5

pub data TransportAdvance : Type 0 where
  advanced : TransportState → TransportState → TransportAdvance
  unchanged : TransportAdvance
  ignored_stale : TransportState → TransportState → TransportAdvance

pub data TerminalDisposition : Type 0 where
  all_good all_failed partial_success : TerminalDisposition

pub record TerminalSummary : Type 0 where
  pub disposition : TerminalDisposition
  pub total : ℕ
  pub good : ℕ
  pub failed : ℕ
  pub good_invoices : List InvoiceReference
  pub failed_invoices : List InvoiceReference
  pub message : SummaryMessage

-- The derived `PartialEq`.
unfoldable pub TerminalSummary-discrete : Discrete TerminalSummary
unfolding ℕ_discrete SummaryMessage-discrete
TerminalSummary-discrete = hlevel (ℕ_discrete, SummaryMessage-discrete, ℤ-discrete)

abbrev pub disposition_of : ℕ → ℕ → TerminalDisposition
disposition_of good failed =
    if failed == 0 then all_good else if good == 0 then all_failed else partial_success

abbrev counted : SummaryMessage → Option ℕ → Option ℕ → Option ℕ → Option TerminalSummary
counted m (some t) (some g) (some f) = some (record {
  disposition = disposition_of g f;
  total = t;
  good = g;
  failed = f;
  good_invoices = m.result.good.invoices;
  failed_invoices = m.result.failed.invoices;
  message = m;
})
counted m _ _ _ = none

unfoldable pub from_validated_message : SummaryMessage → Option TerminalSummary
from_validated_message m =
    counted m (try_unsigned m.result.total.count) (try_unsigned m.result.good.count)
      (try_unsigned m.result.failed.count)

pub data ApplyOutcome : Type 0 where
  changed unchanged_replay : ApplyOutcome

pub record SubmissionRecord : Type 0 where
  pub message_id : Str
  pub expected_quantity : ℕ
  pub transport : TransportState
  pub process_results : List ProcessResult
  pub terminal : Option TerminalSummary

pub data SubmissionInitError : Type 0 where
  empty_message_id zero_expected_quantity : SubmissionInitError

unfoldable pub new : Str → ℕ → Result SubmissionRecord SubmissionInitError
new message_id expected_quantity =
    if is_empty message_id
    then err empty_message_id
    else if expected_quantity == 0
    then err zero_expected_quantity
    else ok (record {
      message_id = message_id;
      expected_quantity = expected_quantity;
      transport = created;
      process_results = [];
      terminal = none;
    })

unfoldable pub advance_transport :
    SubmissionRecord → TransportState → SubmissionRecord × TransportAdvance
advance_transport r target =
    if ltb (rank r.transport) (rank target)
    then (record r { transport = target }, advanced r.transport target)
    else if rank r.transport == rank target
    then (r, unchanged)
    else (r, ignored_stale r.transport target)

pub data ApplyError : Type 0 where
  message_id_mismatch : Str → Str → ApplyError
  summary_message_missing : Str → ApplyError
  duplicate_summary_message : Str → ℕ → ApplyError
  inconsistent_summary : Str → List SummaryValidationIssue → ApplyError
  conflicting_terminal_summary : Str → TerminalSummary → TerminalSummary → ApplyError

abbrev pub Applied : Type 0
Applied = SubmissionRecord × Result ApplyOutcome ApplyError

unfoldable pub ensure_message_id : SubmissionRecord → Str → Result Unit ApplyError
ensure_message_id r actual =
    if str_eq actual r.message_id then ok tt else err (message_id_mismatch r.message_id actual)

-- `process_results.contains(&result)`.
unfoldable pub contains_result : ProcessResult → List ProcessResult → Bool
contains_result p [] = false
contains_result p (q ∷ qs) = ite (ProcessResult-discrete q p) true (contains_result p qs)

unfoldable pub record_result : SubmissionRecord → ProcessResult → Applied
record_result r result =
    if contains_result result r.process_results then (r, ok unchanged_replay) else (
      (advance_transport (record r { process_results = r.process_results ++ result ∷ [] })
          process_observed).0,
      ok changed,
    )

unfoldable pub apply_process_result : SubmissionRecord → ProcessResult → Applied
unfolding record_result
apply_process_result r result = elim (ensure_message_id r result.message.id) [
  | ok _ ↦ record_result r result
  | err e ↦ (r, err e)
]

-- The part of `apply_summary_message` behind the checks, by the terminal summary so far.
unfoldable pub settle : SubmissionRecord → Option TerminalSummary → TerminalSummary → Applied
settle r none incoming =
    ((advance_transport (record r { terminal = some incoming }) summary_observed).0, ok changed)
settle r (some existing) incoming =
    ite (TerminalSummary-discrete existing incoming) (r, ok unchanged_replay)
      (r, err (conflicting_terminal_summary r.message_id existing incoming))

accept : SubmissionRecord → Option TerminalSummary → Option Applied
accept r none = none
accept r (some incoming) = some (settle r r.terminal incoming)

check_summary : SubmissionRecord → SummaryMessage → List SummaryValidationIssue → Option Applied
check_summary r message issues =
    if is_empty issues
    then accept r (from_validated_message message)
    else some (r, err (inconsistent_summary r.message_id issues))

unfoldable pub apply_summary_message : SubmissionRecord → SummaryMessage → Option Applied
unfolding accept check_summary
apply_summary_message r message = elim (ensure_message_id r message.info.id) [
  | err e ↦ some (r, err e)
  | ok _ ↦ check_summary r message (validation_issues message (some r.expected_quantity))
]

-- `messages.iter().filter(|message| message.info.id == self.message_id)`.
unfoldable pub matching : Str → List SummaryMessage → List SummaryMessage
matching id [] = []
matching id (m ∷ ms) = if str_eq m.info.id id then m ∷ matching id ms else matching id ms

unfoldable pub select : SubmissionRecord → List SummaryMessage → Option Applied
select r [] = some (r, err (summary_message_missing r.message_id))
select r (m ∷ []) = apply_summary_message r m
select r (m ∷ n ∷ ms) = some (r, err (duplicate_summary_message r.message_id (length (m ∷ n ∷ ms))))

unfoldable pub apply_summary_result : SubmissionRecord → SummaryResult → Option Applied
unfolding select
apply_summary_result r result = select r (matching r.message_id result.messages)

-- The calls that change a record, and a history of them; the results of the calls are dropped.
pub data Call : Type 0 where
  advances : TransportState → Call
  applies_process : ProcessResult → Call
  applies_message : SummaryMessage → Call
  applies_summary : SummaryResult → Call

after : Option Applied → Option SubmissionRecord
after none = none
after (some (r, _)) = some r

unfoldable pub step : SubmissionRecord → Call → Option SubmissionRecord
unfolding after
step r (advances target) = some (advance_transport r target).0
step r (applies_process result) = some (apply_process_result r result).0
step r (applies_message message) = after (apply_summary_message r message)
step r (applies_summary result) = after (apply_summary_result r result)

and_then :
    Option SubmissionRecord → (SubmissionRecord → Option SubmissionRecord) → Option SubmissionRecord
and_then none f = none
and_then (some r) f = f r

unfoldable pub run : SubmissionRecord → List Call → Option SubmissionRecord
unfolding and_then
run r [] = some r
run r (c ∷ cs) = and_then (step r c) (λ s. run s cs)
