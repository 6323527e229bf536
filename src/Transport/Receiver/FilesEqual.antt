-- ===== src/Transport/Receiver/FilesEqual.antt =====
-- crates/einvoice-transport/src/receiver.rs: `files_equal`, which reads two files in pieces. Which
-- calls fail, and how many bytes a read could give, are parameters; a read that is not at the end of
-- the file gives at least one byte, and at most the buffer.
pub mod Ends
use tw_einvoice_rs.Base.{
  ℕ, ◌+◌, ◌<◌, ◌≤◌, zero, suc, ◌≡◌, ◌≢◌, refl, sym, ap, ◌∙◌, Bool, true, false, Bool-cases, ◌⊎◌,
  inl, inr, ◌&&◌, ◌==◌, ==_iff, ltb, if◌then◌else◌, Option, none, some, [], ◌∷◌, Str, length,
  length-append, take, drop, take-append-drop, str_eq, str_eq_iff, str_eq_of_ne, Result, ok, err,
  arith,
}

pub data CompareCall : Type 0 where
  stats_left stats_right opens_left opens_right : CompareCall
  reads_left reads_right : ℕ → CompareCall

abbrev pub buffer_size : ℕ
buffer_size = 16384

-- The size of a read, by what could be given.
abbrev pub piece_size : ℕ → ℕ
piece_size available =
    if available == 0 then 1 else if ltb available buffer_size then available else buffer_size

abbrev pub unless_error : {A I : Type 0} → Option I → Option (Result A I) → Option (Result A I)
unless_error none next = next
unless_error (some e) next = some (err e)

-- By what one round has read.
abbrev pub compare_pieces :
    {I : Type 0} → Str → Str → Option (Result Bool I) → Option (Result Bool I)
compare_pieces left right next =
    if length left == length right
    then if length left == 0
      then some (ok true)
      else if str_eq left right
      then next
      else some (ok false)
    else some (ok false)

module _ {I : Type 0} (fault : CompareCall → Option I) (available : CompareCall → ℕ) where
  -- With fuel; none is that it ran out.
  unfoldable pub compare_loop : ℕ → ℕ → Str → Str → Option (Result Bool I)
  compare_loop zero round left right = none
  compare_loop (suc fuel) round left right =
      let n = piece_size (available (reads_left round)) in
      let m = piece_size (available (reads_right round)) in
      let next = compare_loop fuel (suc round) (drop n left) (drop m right) in
      unless_error (fault (reads_left round)) (
        unless_error (fault (reads_right round)) (compare_pieces (take n left) (take m right) next))

  unfoldable pub files_equal : Str → Str → Option (Result Bool I)
  files_equal left right = unless_error (fault stats_left) (
      unless_error (fault stats_right) (
        if length left == length right
        then unless_error (fault opens_left)
            (unless_error (fault opens_right) (compare_loop (suc (length left)) 0 left right))
        else some (ok false)))

pub piece_size-positive : (n : ℕ) → 1 ≤ piece_size n
piece_size-positive n = ground arith

str_eq-pieces :
    (n : ℕ) (l r : Str)
    → str_eq l r ≡ (str_eq (take n l) (take n r) && str_eq (drop n l) (drop n r))
str_eq-pieces zero l r = refl
str_eq-pieces (suc n) [] [] = refl
str_eq-pieces (suc n) [] (d ∷ r) = refl
str_eq-pieces (suc n) (c ∷ l) [] = refl
str_eq-pieces (suc n) (c ∷ l) (d ∷ r) = ground (arith, str_eq-pieces n l r)

nil_of_take : (n : ℕ) (l : Str) → 1 ≤ n → length (take n l) ≡ 0 → l ≡ []
nil_of_take zero l h e = absurd (omega arith)
nil_of_take (suc n) [] h e = refl
nil_of_take (suc n) (c ∷ l) h e = absurd (omega arith)

nil_of_length : (l : Str) → length l ≡ 0 → l ≡ []
nil_of_length [] e = refl
nil_of_length (c ∷ l) e = absurd (omega arith)

pub length-pieces : (n : ℕ) (l : Str) → length (take n l) + length (drop n l) ≡ length l
length-pieces n l = sym (length-append (take n l) (drop n l)) ∙ ap length (take-append-drop n l)

-- What a round finds is the equality of what is left, if the next one finds it of what is left then.
compare_pieces_lem :
    {I : Type 0} (n : ℕ) (l r : Str) (next : Option (Result Bool I))
    → 1 ≤ n
    → (length (take n l) ≢ 0 → next ≡ some (ok (str_eq (drop n l) (drop n r))))
    → compare_pieces (take n l) (take n r) next ≡ some (ok (str_eq l r))
compare_pieces_lem n l r next h ih = elim (Bool-cases (length (take n l) == length (take n r))) [
  | inl e ↦ elim (Bool-cases (length (take n l) == 0)) [
    | inl z ↦
        let a = (==_iff (length (take n l)) 0).0 z in
        let b = (==_iff (length (take n l)) (length (take n r))).0 e in
        let same = nil_of_take n l h a ∙ sym (nil_of_take n r h (sym b ∙ a)) in
        rw (e, z, (str_eq_iff l r).1 same) refl
    | inr z ↦ elim (Bool-cases (str_eq (take n l) (take n r))) [
      | inl q ↦
          rw
            (
              e,
              z,
              str_eq-pieces n l r,
              q,
              ih (λ k. let f = (==_iff (length (take n l)) 0).1 k in cc),
            )
            refl
      | inr q ↦ rw (e, z, str_eq-pieces n l r, q) refl
    ]
  ]
  | inr e ↦
      let q =
        str_eq_of_ne (take n l) (take n r)
          (λ k. let f = (==_iff (length (take n l)) (length (take n r))).1 (ap length k) in cc) in
      rw (e, str_eq-pieces n l r, q) refl
]

module _ {I : Type 0} (fault : CompareCall → Option I) (available : CompareCall → ℕ) where
  compare_loop_lem :
      (fuel round : ℕ) (l r : Str)
      → length l < fuel
      → ((call : CompareCall) → fault call ≡ none)
      → ((n : ℕ) → available (reads_left n) ≡ available (reads_right n))
      → compare_loop fault available fuel round l r ≡ some (ok (str_eq l r))
  unfolding compare_loop
  compare_loop_lem zero round l r h works same = absurd (omega arith)
  compare_loop_lem (suc fuel) round l r h works same =
      let n = piece_size (available (reads_left round)) in
      let pieces = length-pieces n l in
      rw (works (reads_left round), works (reads_right round), sym (same round))
        (compare_pieces_lem n l r _ (piece_size-positive (available (reads_left round)))
          (λ k. compare_loop_lem fuel (suc round) (drop n l) (drop n r) (omega arith) works same))

  -- Where no call fails, and both files are read in pieces of one size, whatever sizes these are, the
  -- comparison ends, and says whether the files have the same bytes.
  pub files_equal-str_eq :
      (left right : Str)
      → ((call : CompareCall) → fault call ≡ none)
      → ((n : ℕ) → available (reads_left n) ≡ available (reads_right n))
      → files_equal fault available left right ≡ some (ok (str_eq left right))
  unfolding files_equal
  files_equal-str_eq left right works same = elim (Bool-cases (length left == length right)) [
    | inl e ↦
        rw (works stats_left, works stats_right, works opens_left, works opens_right, e)
          (compare_loop_lem (suc (length left)) 0 left right (omega arith) works same)
    | inr e ↦
        let q =
          str_eq_of_ne left right
            (λ k. let f = (==_iff (length left) (length right)).1 (ap length k) in cc) in
        rw (works stats_left, works stats_right, e, q) refl
  ]

of_unless_error :
    {A I : Type 0} (f : Option I) (next : Option (Result A I)) (a : A)
    → unless_error f next ≡ some (ok a)
    → next ≡ some (ok a)
of_unless_error none next a h = h
of_unless_error (some e) next a h = cc

of_compare_pieces :
    {I : Type 0} (l r : Str) (next : Option (Result Bool I))
    → compare_pieces l r next ≡ some (ok true)
    → (l ≡ r) × ((length l ≡ 0) ⊎ (next ≡ some (ok true)))
of_compare_pieces l r next h = elim (Bool-cases (length l == length r)) [
  | inl e ↦ elim (Bool-cases (length l == 0)) [
    | inl z ↦
        let a = (==_iff (length l) 0).0 z in
        let b = (==_iff (length l) (length r)).0 e in
        (nil_of_length l a ∙ sym (nil_of_length r (sym b ∙ a)), inl a)
    | inr z ↦ elim (Bool-cases (str_eq l r)) [
      | inl q ↦ ((str_eq_iff l r).0 q, inr (rw (e, z, q) at h))
      | inr q ↦ let k = rw (e, z, q) at h in cc
    ]
  ]
  | inr e ↦ let k = rw e at h in cc
]

module _ {I : Type 0} (fault : CompareCall → Option I) (available : CompareCall → ℕ) where
  of_compare_loop :
      (fuel round : ℕ) (l r : Str)
      → compare_loop fault available fuel round l r ≡ some (ok true)
      → l ≡ r
  unfolding compare_loop
  of_compare_loop zero round l r h = cc
  of_compare_loop (suc fuel) round l r h =
      let n = piece_size (available (reads_left round)) in
      let m = piece_size (available (reads_right round)) in
      let h1 = of_unless_error (fault (reads_left round)) _ true h in
      let h2 = of_unless_error (fault (reads_right round)) _ true h1 in
      let p = of_compare_pieces (take n l) (take m r) _ h2 in
      elim p.1 [
        | inl z ↦
            nil_of_take n l (piece_size-positive (available (reads_left round))) z
            ∙ sym (
                nil_of_take m r (piece_size-positive (available (reads_right round)))
                  (sym (ap length p.0) ∙ z))
        | inr k ↦
            let rest = of_compare_loop fuel (suc round) (drop n l) (drop m r) k in
            sym (take-append-drop n l) ∙ rw (p.0, rest) (take-append-drop m r)
      ]

  -- Whatever calls fail, and whatever the reads give, also pieces of different sizes: files that are
  -- found equal have the same bytes.
  pub files_equal-true :
      (left right : Str) → files_equal fault available left right ≡ some (ok true) → left ≡ right
  unfolding files_equal
  files_equal-true left right h =
      let h1 = of_unless_error (fault stats_left) _ true h in
      let h2 = of_unless_error (fault stats_right) _ true h1 in
      elim (Bool-cases (length left == length right)) [
        | inl e ↦
            let h3 = of_unless_error (fault opens_left) _ true (rw e at h2) in
            of_compare_loop (suc (length left)) 0 left right
              (of_unless_error (fault opens_right) _ true h3)
        | inr e ↦ let k = rw e at h2 in cc
      ]
