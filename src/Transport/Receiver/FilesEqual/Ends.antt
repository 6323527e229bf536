-- ===== src/Transport/Receiver/FilesEqual/Ends.antt =====
-- `files_equal` of crates/einvoice-transport/src/receiver.rs ends whatever the reads give.
use tw_einvoice_rs.Base.{
  ℕ, zero, suc, ◌<◌, ◌≢◌, Bool, Bool-cases, inl, inr, ◌==◌, ==_iff, Option, none, some, Str, length,
  take, drop, str_eq, Result, arith,
}
use tw_einvoice_rs.Transport.Receiver.FilesEqual.{
  CompareCall, reads_left, reads_right, stats_left, stats_right, opens_left, opens_right,
  piece_size, unless_error, compare_pieces, compare_loop, files_equal, length-pieces,
}

abbrev pub IsSome : {A : Type 0} → Option A → Type 0
IsSome none = ⊥
IsSome (some a) = Unit

unless_error-IsSome :
    {A I : Type 0} (f : Option I) (next : Option (Result A I))
    → IsSome next
    → IsSome (unless_error f next)
unless_error-IsSome none next h = h
unless_error-IsSome (some e) next h = tt

compare_pieces-IsSome :
    {I : Type 0} (l r : Str) (next : Option (Result Bool I))
    → (length l ≢ 0 → IsSome next)
    → IsSome (compare_pieces l r next)
compare_pieces-IsSome l r next h = elim (Bool-cases (length l == length r)) [
  | inr e ↦ rw e tt
  | inl e ↦ elim (Bool-cases (length l == 0)) [
    | inl z ↦ rw (e, z) tt
    | inr z ↦ elim (Bool-cases (str_eq l r)) [
      | inl q ↦ rw (e, z, q) (h (λ k. let f = (==_iff (length l) 0).1 k in cc))
      | inr q ↦ rw (e, z, q) tt
    ]
  ]
]

module _ {I : Type 0} (fault : CompareCall → Option I) (available : CompareCall → ℕ) where
  compare_loop-IsSome :
      (fuel round : ℕ) (l r : Str)
      → length l < fuel
      → IsSome (compare_loop fault available fuel round l r)
  unfolding compare_loop
  compare_loop-IsSome zero round l r h = absurd (omega arith)
  compare_loop-IsSome (suc fuel) round l r h =
      let n = piece_size (available (reads_left round)) in
      let m = piece_size (available (reads_right round)) in
      let pieces = length-pieces n l in
      unless_error-IsSome (fault (reads_left round)) _ (
        unless_error-IsSome (fault (reads_right round)) _ (
          compare_pieces-IsSome (take n l) (take m r) _
            (λ k. compare_loop-IsSome fuel (suc round) (drop n l) (drop m r) (omega arith))))

  -- The fuel is enough for all files, whatever calls fail and whatever the reads give.
  pub files_equal-IsSome : (left right : Str) → IsSome (files_equal fault available left right)
  unfolding files_equal
  files_equal-IsSome left right = unless_error-IsSome (fault stats_left) _ (
      unless_error-IsSome (fault stats_right) _ (elim (Bool-cases (length left == length right)) [
        | inl e ↦ rw e (
            unless_error-IsSome (fault opens_left) _ (
              unless_error-IsSome (fault opens_right) _
                (compare_loop-IsSome (suc (length left)) 0 left right (omega arith))))
        | inr e ↦ rw e tt
      ]))
