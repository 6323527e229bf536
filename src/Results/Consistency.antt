-- ===== src/Results/Consistency.antt =====
-- `validation_issues` against what the counts of a summary are to satisfy.
use tw_einvoice_rs.Base.{
  ℕ, ◌+◌, ◌<◌, ◌≡◌, refl, ◌↔◌, ◌⊎◌, true, Option, none, some, List, [], ◌∷◌, ◌++◌, ℤ, pos, negsuc,
  inl, subst, IsI32, wrap_i32, wrap_i32_pos, int_eq_iff, i32_bound, length, is_empty, arith,
}
use tw_einvoice_rs.Results.{
  InvoiceReference, ResultDetail, ResultBreakdown, ResultBucket, SummaryMessage, detail_issues,
  total_issues, quantity_issues, validation_issues, is_consistent,
}

-- A bucket that counts `n` invoices, and lists either none of them or all.
pub record IsDetail (d : ResultDetail) (n : ℕ) : Type 0 where
  pub counts : d.count ≡ pos n
  pub lists : (d.invoices ≡ []) ⊎ (length d.invoices ≡ n)

abbrev pub Expects : Option ℕ → ℕ → Type 0
Expects none t = Unit
Expects (some e) t = t ≡ e

-- The counts are natural numbers that add up, to the expected quantity where one is given.
pub record IsConsistent (m : SummaryMessage) (expected : Option ℕ) : Type 0 where
  pub good : ℕ
  pub failed : ℕ
  pub total_detail : IsDetail m.result.total (good + failed)
  pub good_detail : IsDetail m.result.good good
  pub failed_detail : IsDetail m.result.failed failed
  pub quantity : Expects expected (good + failed)

-- The three counts are values of their type.
abbrev pub InRange : SummaryMessage → Type 0
InRange m = IsI32 m.result.total.count × IsI32 m.result.good.count × IsI32 m.result.failed.count

append-eq-nil {ℓ} : {A : Type ℓ} (xs ys : List A) → xs ++ ys ≡ [] → (xs ≡ []) × (ys ≡ [])
append-eq-nil [] ys h = (refl, h)
append-eq-nil (x ∷ xs) ys h = cc

IsDetail-counts :
    (b : ResultBucket) (c : ℤ) (xs : List InvoiceReference)
    → detail_issues b (record { count = c; invoices = xs }) ≡ []
    → (n : ℕ) × IsDetail (record { count = c; invoices = xs }) n
unfolding detail_issues
IsDetail-counts b (pos n) [] h = (n, record { counts = refl; lists = inl refl })
IsDetail-counts b (pos n) (x ∷ xs) h = (n, record { counts = refl; lists = ground arith })
IsDetail-counts b (negsuc n) xs h = cc

IsDetail-detail_issues :
    (b : ResultBucket) (d : ResultDetail) (n : ℕ) → IsDetail d n → detail_issues b d ≡ []
unfolding detail_issues
IsDetail-detail_issues b d n v = ground arith

-- The sum wraps to a negative value or is exact, and the total of a clean bucket is not negative.
total_issues_iff :
    (r : ResultBreakdown) (t g f : ℕ)
    → t < i32_bound
    → g < i32_bound
    → f < i32_bound
    → r.total.count ≡ pos t
    → r.good.count ≡ pos g
    → r.failed.count ≡ pos f
    → (total_issues r ≡ []) ↔ (t ≡ g + f)
unfolding total_issues
total_issues_iff r t g f ht hg hf et eg ef =
    rw (et, eg, ef)
      (ground (arith, int_eq_iff (pos t) (wrap_i32 (pos (g + f))), wrap_i32_pos g f t hg hf ht))

quantity_issues_iff : (e : Option ℕ) (t : ℕ) → (quantity_issues e (pos t) ≡ []) ↔ Expects e t
unfolding quantity_issues
quantity_issues_iff none t = (λ _. tt, λ _. refl)
quantity_issues_iff (some e) t = ground arith

is_empty_iff {ℓ} : {A : Type ℓ} (xs : List A) → (is_empty xs ≡ true) ↔ (xs ≡ [])
is_empty_iff [] = (λ _. refl, λ _. refl)
is_empty_iff (x ∷ xs) = (λ h. cc, λ h. cc)

-- What the counts of `issues-IsConsistent` are, bucket by bucket.
counts-IsConsistent :
    (m : SummaryMessage) (expected : Option ℕ) {t g f : ℕ}
    → InRange m
    → IsDetail m.result.total t
    → IsDetail m.result.good g
    → IsDetail m.result.failed f
    → total_issues m.result ≡ []
    → quantity_issues expected m.result.total.count ≡ []
    → IsConsistent m expected
counts-IsConsistent m expected {t} {g} {f} (it, ig, jf) dt dg df hs hq =
    let sum : t ≡ g + f =
      (total_issues_iff m.result t g f (subst IsI32 dt.counts it) (subst IsI32 dg.counts ig)
          (subst IsI32 df.counts jf) dt.counts dg.counts df.counts).0
        hs in
    let exact = (quantity_issues_iff expected t).0 (rw dt.counts at hq) in
    record {
      good = g;
      failed = f;
      total_detail = subst (IsDetail m.result.total) sum dt;
      good_detail = dg;
      failed_detail = df;
      quantity = subst (Expects expected) sum exact;
    }

issues-IsConsistent :
    (m : SummaryMessage) (expected : Option ℕ)
    → InRange m
    → validation_issues m expected ≡ []
    → IsConsistent m expected
unfolding validation_issues
issues-IsConsistent m expected range h =
    let (ht, h1) = append-eq-nil _ _ h in
    let (hg, h2) = append-eq-nil _ _ h1 in
    let (hf, h3) = append-eq-nil _ _ h2 in
    let (hs, hq) = append-eq-nil _ _ h3 in
    counts-IsConsistent m expected range (IsDetail-counts ResultBucket.total _ _ ht).1
      (IsDetail-counts ResultBucket.good _ _ hg).1 (IsDetail-counts ResultBucket.failed _ _ hf).1 hs
      hq

IsConsistent-issues :
    (m : SummaryMessage) (expected : Option ℕ)
    → InRange m
    → IsConsistent m expected
    → validation_issues m expected ≡ []
unfolding validation_issues
IsConsistent-issues m expected (it, ig, jf) v =
    let dt = v.total_detail in
    let dg = v.good_detail in
    let df = v.failed_detail in
    rw
      (
        IsDetail-detail_issues ResultBucket.total m.result.total _ dt,
        IsDetail-detail_issues ResultBucket.good m.result.good _ dg,
        IsDetail-detail_issues ResultBucket.failed m.result.failed _ df,
        (total_issues_iff m.result (v.good + v.failed) v.good v.failed (subst IsI32 dt.counts it)
              (subst IsI32 dg.counts ig) (subst IsI32 df.counts jf) dt.counts dg.counts df.counts).1
            refl,
        dt.counts,
      )
      ((quantity_issues_iff expected (v.good + v.failed)).1 v.quantity)

-- For counts that are `i32` values, a summary is accepted exactly when its three counts are
-- natural numbers with total = good + failed, each bucket lists no invoice or as many as it counts,
-- and the total is the expected quantity where one is given. The sum of the source may wrap around:
-- no summary is accepted for that.
pub is_consistent_iff :
    (m : SummaryMessage) (expected : Option ℕ)
    → InRange m
    → (is_consistent m expected ≡ true) ↔ IsConsistent m expected
unfolding is_consistent
is_consistent_iff m expected range = (
  λ h. issues-IsConsistent m expected range ((is_empty_iff _).0 h),
  λ v. (is_empty_iff _).1 (IsConsistent-issues m expected range v),
)
