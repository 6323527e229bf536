-- ===== src/State/Invariant.antt =====
-- What holds of a submission record after any history of calls.
use tw_einvoice_rs.Base.{
  ℕ, ◌≤◌, ◌<◌, ◌≡◌, ◌≢◌, refl, sym, ap, subst, ◌∙◌, inl, inr, false, Option, none, some, List, [],
  ◌∷◌, ◌++◌, Str, ltb, if◌then◌else◌, ok, All, All-append, arith,
}
use tw_einvoice_rs.Results.{ProcessResult, SummaryMessage, SummaryResult}
use tw_einvoice_rs.Results.Consistency.{InRange}
use tw_einvoice_rs.State.Cases.{
  IsSummaryOf, foreign, inconsistent, settled, replayed, recorded, settle_again,
  apply_summary_message_cases, apply_process_result_cases,
}
use tw_einvoice_rs.State.{
  TransportState, rank, process_observed, summary_observed, TerminalSummary, SubmissionRecord, Call,
  advances, applies_process, applies_message, applies_summary, Applied, new, advance_transport,
  contains_result, settle, matching, select, apply_process_result, apply_summary_message,
  apply_summary_result, step, run,
}

-- No result stands twice in the list.
abbrev pub Distinct : List ProcessResult → Type 0
Distinct [] = Unit
Distinct (p ∷ ps) = (contains_result p ps ≡ false) × Distinct ps

-- The transport has seen a process result once one is recorded.
abbrev pub Observed : List ProcessResult → TransportState → Type 0
Observed [] t = Unit
Observed (p ∷ ps) t = rank process_observed ≤ rank t

-- A terminal summary is that of a consistent message of this submission, and was observed.
abbrev pub IsTerminal : Str → ℕ → TransportState → Option TerminalSummary → Type 0
IsTerminal id quantity state none = Unit
IsTerminal id quantity state (some t) =
    (state ≡ summary_observed) × (t.message.info.id ≡ id) × IsSummaryOf t t.message quantity

pub record IsWellFormed (r : SubmissionRecord) : Type 0 where
  pub id_given : r.message_id ≢ []
  pub quantity_pos : 0 < r.expected_quantity
  pub own_results : All (λ p. p.message.id ≡ r.message_id) r.process_results
  pub distinct : Distinct r.process_results
  pub observed : Observed r.process_results r.transport
  pub terminal_valid : IsTerminal r.message_id r.expected_quantity r.transport r.terminal

-- The summaries that a call brings in hold `i32` values.
abbrev pub CallInRange : Call → Type 0
CallInRange (advances t) = Unit
CallInRange (applies_process p) = Unit
CallInRange (applies_message m) = InRange m
CallInRange (applies_summary s) = All InRange s.messages

new-IsWellFormed :
    (id : Str) (quantity : ℕ) {r : SubmissionRecord} → new id quantity ≡ ok r → IsWellFormed r
unfolding new
new-IsWellFormed [] quantity h = cc
new-IsWellFormed (c ∷ id) quantity {r} h = ground arith

-- The transport state after a call to advance to `target`.
abbrev pub raise : TransportState → TransportState → TransportState
raise s target = if ltb (rank s) (rank target) then target else s

pub advance_transport_lem :
    (r : SubmissionRecord) (target : TransportState)
    → (advance_transport r target).0 ≡ record r { transport = raise r.transport target }
unfolding advance_transport
advance_transport_lem r target = ground arith

raise-summary_observed :
    (target : TransportState) → raise summary_observed target ≡ summary_observed
raise-summary_observed target = ground arith

raise-to_summary_observed : (s : TransportState) → raise s summary_observed ≡ summary_observed
raise-to_summary_observed s = ground arith

IsTerminal-raise :
    (id : Str) (q : ℕ) (s target : TransportState) (o : Option TerminalSummary)
    → IsTerminal id q s o
    → IsTerminal id q (raise s target) o
IsTerminal-raise id q s target none v = tt
IsTerminal-raise id q s target (some t) (seen, own, summary) =
    (rw seen (raise-summary_observed target), own, summary)

Observed-raise :
    (ps : List ProcessResult) (s target : TransportState)
    → Observed ps s
    → Observed ps (raise s target)
Observed-raise [] s target v = tt
Observed-raise (p ∷ ps) s target v = ground arith

advance-IsWellFormed :
    (r : SubmissionRecord) (target : TransportState)
    → IsWellFormed r
    → IsWellFormed (advance_transport r target).0
advance-IsWellFormed r target v = rw (advance_transport_lem r target) (record {
  id_given = v.id_given;
  quantity_pos = v.quantity_pos;
  own_results = v.own_results;
  distinct = v.distinct;
  observed = Observed-raise r.process_results r.transport target v.observed;
  terminal_valid = IsTerminal-raise _ _ r.transport target r.terminal v.terminal_valid;
})

-- An id-matching result that is not in the list is put behind it.
contains_result-cons :
    (p q : ProcessResult) (ps : List ProcessResult)
    → contains_result p (q ∷ ps) ≡ false
    → (q ≢ p) × (contains_result p ps ≡ false)
unfolding contains_result
contains_result-cons p q ps h = (λ e. ground arith, ground arith)

contains_result-concat :
    (p q : ProcessResult) (ps : List ProcessResult)
    → q ≢ p
    → contains_result q ps ≡ false
    → contains_result q (ps ++ p ∷ []) ≡ false
unfolding contains_result
contains_result-concat p q [] ne h = ground arith
contains_result-concat p q (x ∷ ps) ne h = ground (arith, contains_result-concat p q ps ne)

Distinct-concat :
    (p : ProcessResult) (ps : List ProcessResult)
    → contains_result p ps ≡ false
    → Distinct ps
    → Distinct (ps ++ p ∷ [])
unfolding contains_result
Distinct-concat p [] h d = (refl, tt)
Distinct-concat p (q ∷ ps) h (fresh, d) =
    let (ne, h') = contains_result-cons p q ps h in
    (contains_result-concat p q ps ne fresh, Distinct-concat p ps h' d)

Observed-concat :
    (ps : List ProcessResult) (p : ProcessResult) (s : TransportState)
    → Observed (ps ++ p ∷ []) (raise s process_observed)
Observed-concat [] p s = ground arith
Observed-concat (q ∷ ps) p s = ground arith

record-IsWellFormed :
    (r : SubmissionRecord) (p : ProcessResult)
    → p.message.id ≡ r.message_id
    → contains_result p r.process_results ≡ false
    → IsWellFormed r
    → IsWellFormed
        (advance_transport
          (record r { process_results = r.process_results ++ p ∷ [] })
          process_observed).0
record-IsWellFormed r p own fresh v =
    rw
      (advance_transport_lem (record r { process_results = r.process_results ++ p ∷ [] })
        process_observed)
      (record {
        id_given = v.id_given;
        quantity_pos = v.quantity_pos;
        own_results = All-append _ r.process_results (p ∷ []) v.own_results (own, tt);
        distinct = Distinct-concat p r.process_results fresh v.distinct;
        observed = Observed-concat r.process_results p r.transport;
        terminal_valid =
            IsTerminal-raise _ _ r.transport process_observed r.terminal v.terminal_valid;
      })

pub apply_process_result-IsWellFormed :
    (r : SubmissionRecord) (p : ProcessResult)
    → IsWellFormed r
    → IsWellFormed (apply_process_result r p).0
apply_process_result-IsWellFormed r p v = elim (apply_process_result_cases r p) [
  | foreign _ e ↦ rw e v
  | replayed _ _ e ↦ rw e v
  | recorded own fresh e ↦ rw e (record-IsWellFormed r p own fresh v)
]

settle-IsWellFormed :
    (r : SubmissionRecord) (o : Option TerminalSummary) (t : TerminalSummary)
    → t.message.info.id ≡ r.message_id
    → IsSummaryOf t t.message r.expected_quantity
    → IsWellFormed r
    → IsWellFormed (settle r o t).0
settle-IsWellFormed r none t own summary v =
    unfold settle in
    rw (advance_transport_lem (record r { terminal = some t }) summary_observed) (record {
      id_given = v.id_given;
      quantity_pos = v.quantity_pos;
      own_results = v.own_results;
      distinct = v.distinct;
      observed = Observed-raise r.process_results r.transport summary_observed v.observed;
      terminal_valid = (raise-to_summary_observed r.transport, own, summary);
    })
settle-IsWellFormed r (some old) t own summary v = elim (settle_again r old t) [
  | inl (_, e) ↦ rw e v
  | inr (_, e) ↦ rw e v
]

-- `t` summarises its own message.
own_summary :
    {t : TerminalSummary} {m : SummaryMessage} {q : ℕ}
    → IsSummaryOf t m q
    → IsSummaryOf t t.message q
own_summary {t} {m} {q} s = subst (λ n. IsSummaryOf t n q) (sym s.message) s

-- A call of `apply_summary_message` returns, and keeps the record well formed.
pub apply_summary_message-IsWellFormed :
    (r : SubmissionRecord) (m : SummaryMessage)
    → InRange m
    → IsWellFormed r
    → (a : Applied) × (apply_summary_message r m ≡ some a) × IsWellFormed a.0
apply_summary_message-IsWellFormed r m range v = elim (apply_summary_message_cases r m range) [
  | foreign _ e ↦ (_, e, v)
  | inconsistent _ _ e ↦ (_, e, v)
  | settled t own _ _ summary e ↦ (
    _,
    e,
    settle-IsWellFormed r r.terminal t (ap (λ n. n.info.id) summary.message ∙ own)
        (own_summary summary) v,
  )
]

pub matching-InRange :
    (id : Str) (ms : List SummaryMessage) → All InRange ms → All InRange (matching id ms)
unfolding matching
matching-InRange id [] h = tt
matching-InRange id (m ∷ ms) h = ground (arith, matching-InRange id ms h.1)

select-IsWellFormed :
    (r : SubmissionRecord) (ms : List SummaryMessage)
    → All InRange ms
    → IsWellFormed r
    → (a : Applied) × (select r ms ≡ some a) × IsWellFormed a.0
unfolding select
select-IsWellFormed r [] range v = (_, refl, v)
select-IsWellFormed r (m ∷ []) range v = apply_summary_message-IsWellFormed r m range.0 v
select-IsWellFormed r (m ∷ n ∷ ms) range v = (_, refl, v)

-- So does a call of `apply_summary_result`.
pub apply_summary_result-IsWellFormed :
    (r : SubmissionRecord) (s : SummaryResult)
    → All InRange s.messages
    → IsWellFormed r
    → (a : Applied) × (apply_summary_result r s ≡ some a) × IsWellFormed a.0
unfolding apply_summary_result
apply_summary_result-IsWellFormed r s range v =
    select-IsWellFormed r (matching r.message_id s.messages)
      (matching-InRange r.message_id s.messages range) v

pub step-IsWellFormed :
    (r : SubmissionRecord) (c : Call)
    → CallInRange c
    → IsWellFormed r
    → (s : SubmissionRecord) × (step r c ≡ some s) × IsWellFormed s
unfolding step
step-IsWellFormed r (advances target) range v = (_, refl, advance-IsWellFormed r target v)
step-IsWellFormed r (applies_process p) range v = (_, refl, apply_process_result-IsWellFormed r p v)
step-IsWellFormed r (applies_message m) range v =
    let (a, e, w) = apply_summary_message-IsWellFormed r m range v in (a.0, ground (arith, e), w)
step-IsWellFormed r (applies_summary s) range v =
    let (a, e, w) = apply_summary_result-IsWellFormed r s range v in (a.0, ground (arith, e), w)

run_from-IsWellFormed :
    (r : SubmissionRecord) (cs : List Call)
    → All CallInRange cs
    → IsWellFormed r
    → (s : SubmissionRecord) × (run r cs ≡ some s) × IsWellFormed s
unfolding run
run_from-IsWellFormed r [] range v = (r, refl, v)
run_from-IsWellFormed r (c ∷ cs) range v =
    let (s, e, w) = step-IsWellFormed r c range.0 v in
    let (t, f, x) = run_from-IsWellFormed s cs range.1 w in (t, rw e f, x)

-- From a new record, any history of calls whose summaries hold `i32` counts runs to its end with
-- no panic, and leaves a record with a message id and a positive quantity, whose process results
-- are distinct and of this message, whose transport state has seen them, and whose terminal
-- summary, if there is one, is that of a consistent message of this submission with the expected
-- quantity, in the last transport state.
pub run-IsWellFormed :
    (id : Str) (quantity : ℕ) {r : SubmissionRecord} (cs : List Call)
    → new id quantity ≡ ok r
    → All CallInRange cs
    → (s : SubmissionRecord) × (run r cs ≡ some s) × IsWellFormed s
run-IsWellFormed id quantity {r} cs made range =
    run_from-IsWellFormed r cs range (new-IsWellFormed id quantity made)
