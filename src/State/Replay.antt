-- ===== src/State/Replay.antt =====
-- Replays change nothing, and what is settled stays settled.
use mathlib.Core.List.{append_assoc, append-nil}
use tw_einvoice_rs.Base.{
  ◌≤◌, ◌≡◌, refl, sym, ap, subst, ◌∙◌, ◌⊎◌, inl, inr, true, Option, none, some, List, [], ◌∷◌, ◌++◌,
  ok, eq_of_some, All, arith,
}
use tw_einvoice_rs.Results.{ProcessResult, SummaryMessage}
use tw_einvoice_rs.Results.Consistency.{InRange, IsConsistent}
use tw_einvoice_rs.State.Cases.{
  foreign, inconsistent, settled, replayed, recorded, settle_again, apply_summary_message_cases,
  apply_process_result_cases,
}
use tw_einvoice_rs.State.Invariant.{CallInRange, raise, advance_transport_lem, matching-InRange}
use tw_einvoice_rs.State.{
  TransportState, rank, process_observed, summary_observed, TerminalSummary, SubmissionRecord, Call,
  advances, applies_process, applies_message, applies_summary, Applied, ApplyOutcome,
  unchanged_replay, advance_transport, from_validated_message, ensure_message_id, contains_result,
  settle, matching, select, apply_process_result, apply_summary_message, apply_summary_result,
  after, step, and_then, run,
}

contains_result-concat_self :
    (p : ProcessResult) (ps : List ProcessResult) → contains_result p (ps ++ p ∷ []) ≡ true
unfolding contains_result
contains_result-concat_self p [] = ground arith
contains_result-concat_self p (q ∷ ps) = ground (arith, contains_result-concat_self p ps)

-- A process result that was accepted is recognised as a replay when it comes again.
pub apply_process_result_replay :
    (r : SubmissionRecord) (p : ProcessResult) {s : SubmissionRecord} {o : ApplyOutcome}
    → apply_process_result r p ≡ (s, ok o)
    → apply_process_result s p ≡ (s, ok unchanged_replay)
unfolding apply_process_result ensure_message_id advance_transport
apply_process_result_replay r p h = ground (arith, contains_result-concat_self p r.process_results)

settle_replay :
    (r : SubmissionRecord) (o : Option TerminalSummary) (t : TerminalSummary) {s : SubmissionRecord}
    {x : ApplyOutcome}
    → r.terminal ≡ o
    → settle r o t ≡ (s, ok x)
    → (s.terminal ≡ some t)
      × (s.message_id ≡ r.message_id)
      × (s.expected_quantity ≡ r.expected_quantity)
settle_replay r none t e h = unfold settle advance_transport in ground arith
settle_replay r (some old) t e h = elim (settle_again r old t) [
  | inl (same, f) ↦ ground arith
  | inr (other, f) ↦ cc
]

message_again :
    (s : SubmissionRecord) (m : SummaryMessage) (t : TerminalSummary)
    → InRange m
    → m.info.id ≡ s.message_id
    → IsConsistent m (some s.expected_quantity)
    → from_validated_message m ≡ some t
    → s.terminal ≡ some t
    → apply_summary_message s m ≡ some (s, ok unchanged_replay)
message_again s m t range own v made kept = elim (apply_summary_message_cases s m range) [
  | foreign other e ↦ absurd (other own)
  | inconsistent _ bad e ↦ absurd (bad v)
  | settled t' _ _ made' _ e ↦ elim (settle_again s t t') [
    | inl (_, f) ↦ e ∙ ap some (ap (λ o. settle s o t') kept ∙ f)
    | inr (other, _) ↦ absurd (other (eq_of_some (sym made ∙ made')))
  ]
]

-- A summary message with `i32` counts that was accepted is recognised as a replay when it comes
-- again.
pub apply_summary_message_replay :
    (r : SubmissionRecord) (m : SummaryMessage) {s : SubmissionRecord} {o : ApplyOutcome}
    → InRange m
    → apply_summary_message r m ≡ some (s, ok o)
    → apply_summary_message s m ≡ some (s, ok unchanged_replay)
apply_summary_message_replay r m {s} {o} range h = elim (apply_summary_message_cases r m range) [
  | foreign _ e ↦ cc
  | inconsistent _ _ e ↦ cc
  | settled t own v made _ e ↦
      let (kept, same_id, same_quantity) = settle_replay r r.terminal t {s = s} {x = o} refl (cc) in
      message_again s m t range (own ∙ sym same_id)
        (subst (λ q. IsConsistent m (some q)) (sym same_quantity) v) made kept
]

-- `s` is `r` after some more calls: the same submission, no earlier transport state, all process
-- results kept in order, and a settled terminal summary kept as it is.
pub record Extends (r s : SubmissionRecord) : Type 0 where
  pub same_id : s.message_id ≡ r.message_id
  pub same_quantity : s.expected_quantity ≡ r.expected_quantity
  pub forward : rank r.transport ≤ rank s.transport
  pub more : List ProcessResult
  pub appended : s.process_results ≡ r.process_results ++ more
  pub settled_kept : (r.terminal ≡ none) ⊎ (s.terminal ≡ r.terminal)

Extends-refl : (r : SubmissionRecord) → Extends r r
Extends-refl r = record {
  same_id = refl;
  same_quantity = refl;
  forward = omega arith;
  more = [];
  appended = sym (append-nil r.process_results);
  settled_kept = inr refl;
}

Extends-trans : {r s t : SubmissionRecord} → Extends r s → Extends s t → Extends r t
Extends-trans {r} {s} {t} a b = record {
  same_id = b.same_id ∙ a.same_id;
  same_quantity = b.same_quantity ∙ a.same_quantity;
  forward = omega (arith, a.forward, b.forward);
  more = a.more ++ b.more;
  appended =
      b.appended
      ∙ ap (λ ps. ps ++ b.more) a.appended
      ∙ append_assoc r.process_results a.more b.more;
  settled_kept = ground (arith, a.settled_kept, b.settled_kept);
}

rank-raise : (s target : TransportState) → rank s ≤ rank (raise s target)
rank-raise s target = ground arith

advance-Extends :
    (r : SubmissionRecord) (target : TransportState) → Extends r (advance_transport r target).0
advance-Extends r target = rw (advance_transport_lem r target) (record {
  same_id = refl;
  same_quantity = refl;
  forward = rank-raise r.transport target;
  more = [];
  appended = sym (append-nil r.process_results);
  settled_kept = inr refl;
})

process-Extends :
    (r : SubmissionRecord) (p : ProcessResult) → Extends r (apply_process_result r p).0
process-Extends r p = elim (apply_process_result_cases r p) [
  | foreign _ e ↦ rw e (Extends-refl r)
  | replayed _ _ e ↦ rw e (Extends-refl r)
  | recorded _ _ e ↦
      rw
        (
          e,
          advance_transport_lem (record r { process_results = r.process_results ++ p ∷ [] })
              process_observed,
        )
        (record {
          same_id = refl;
          same_quantity = refl;
          forward = rank-raise r.transport process_observed;
          more = p ∷ [];
          appended = refl;
          settled_kept = inr refl;
        })
]

settle-Extends :
    (r : SubmissionRecord) (o : Option TerminalSummary) (t : TerminalSummary)
    → r.terminal ≡ o
    → Extends r (settle r o t).0
settle-Extends r none t free =
    unfold settle in
    rw (advance_transport_lem (record r { terminal = some t }) summary_observed) (record {
      same_id = refl;
      same_quantity = refl;
      forward = rank-raise r.transport summary_observed;
      more = [];
      appended = sym (append-nil r.process_results);
      settled_kept = inl free;
    })
settle-Extends r (some old) t _ = elim (settle_again r old t) [
  | inl (_, e) ↦ rw e (Extends-refl r)
  | inr (_, e) ↦ rw e (Extends-refl r)
]

message-Extends :
    (r : SubmissionRecord) (m : SummaryMessage) {a : Applied}
    → InRange m
    → apply_summary_message r m ≡ some a
    → Extends r a.0
message-Extends r m {a} range h = elim (apply_summary_message_cases r m range) [
  | foreign _ e ↦ subst (λ x. Extends r x.0) (eq_of_some (sym e ∙ h)) (Extends-refl r)
  | inconsistent _ _ e ↦ subst (λ x. Extends r x.0) (eq_of_some (sym e ∙ h)) (Extends-refl r)
  | settled t _ _ _ _ e ↦
      subst (λ x. Extends r x.0) (eq_of_some (sym e ∙ h)) (settle-Extends r r.terminal t refl)
]

select-Extends :
    (r : SubmissionRecord) (ms : List SummaryMessage) {a : Applied}
    → All InRange ms
    → select r ms ≡ some a
    → Extends r a.0
unfolding select
select-Extends r [] range h = subst (λ x. Extends r x.0) (eq_of_some h) (Extends-refl r)
select-Extends r (m ∷ []) range h = message-Extends r m range.0 h
select-Extends r (m ∷ n ∷ ms) range h = subst (λ x. Extends r x.0) (eq_of_some h) (Extends-refl r)

-- A call of `step` that returned came from a call that returned.
after-some :
    (o : Option Applied) {s : SubmissionRecord}
    → after o ≡ some s
    → (a : Applied) × (o ≡ some a) × (a.0 ≡ s)
unfolding after
after-some none h = cc
after-some (some a) h = (a, refl, eq_of_some h)

step-Extends :
    (r : SubmissionRecord) (c : Call) {s : SubmissionRecord}
    → CallInRange c
    → step r c ≡ some s
    → Extends r s
unfolding step apply_summary_result
step-Extends r (advances target) range h =
    subst (Extends r) (eq_of_some h) (advance-Extends r target)
step-Extends r (applies_process p) range h = subst (Extends r) (eq_of_some h) (process-Extends r p)
step-Extends r (applies_message m) range h =
    let (a, e, same) = after-some (apply_summary_message r m) h in
    subst (Extends r) same (message-Extends r m range e)
step-Extends r (applies_summary x) range h =
    let (a, e, same) = after-some (select r (matching r.message_id x.messages)) h in
    subst (Extends r) same (
      select-Extends r (matching r.message_id x.messages)
        (matching-InRange r.message_id x.messages range) e)

and_then-some :
    (o : Option SubmissionRecord) (f : SubmissionRecord → Option SubmissionRecord)
    {t : SubmissionRecord}
    → and_then o f ≡ some t
    → (s : SubmissionRecord) × (o ≡ some s) × (f s ≡ some t)
unfolding and_then
and_then-some none f h = cc
and_then-some (some s) f h = (s, refl, h)

-- No history of calls with `i32` counts moves a record to another submission, moves its transport
-- state back, drops or reorders recorded process results, or changes or removes a terminal summary.
pub run-Extends :
    (r : SubmissionRecord) (cs : List Call) {s : SubmissionRecord}
    → All CallInRange cs
    → run r cs ≡ some s
    → Extends r s
unfolding run
run-Extends r [] range h = subst (Extends r) (eq_of_some h) (Extends-refl r)
run-Extends r (c ∷ cs) range h =
    let (s, e, f) = and_then-some (step r c) (λ s. run s cs) h in
    Extends-trans (step-Extends r c range.0 e) (run-Extends s cs range.1 f)
