-- ===== src/Transport/Receiver/TempName.antt =====
-- crates/einvoice-transport/src/receiver.rs: `IncomingFile::create`, the loop that looks for a name
-- that is free. The rounds are fuel; as many as there are files, and one, are enough.
use tw_einvoice_rs.Base.{
  ℕ, zero, suc, ◌+◌, ◌%◌, ◌≤◌, ◌<◌, ◌≡◌, ◌≢◌, ◌⊎◌, inl, inr, refl, subst, sym, ap, ◌∙◌, Option,
  none, some, List, [], ◌∷◌, ◌++◌, Str, codes, digits, read_digits, read_digits-digits, length,
  drop, drop-append, eq_of_some, eq_of_ok, Result, ok, err, arith,
}
use tw_einvoice_rs.Transport.Receiver.Files.{Directory}

-- `AtomicU64::fetch_add` wraps around.
abbrev pub u64_mod : ℕ
u64_mod = 18446744073709551616

abbrev pub temp_prefix : ℕ → Str
temp_prefix pid = codes ".incoming-" ++ digits 20 pid ++ codes "-"

-- `format!(".incoming-{}-{id}", std::process::id())`.
unfoldable pub temp_name : ℕ → ℕ → Str
temp_name pid id = temp_prefix pid ++ digits 20 id

-- The counter behind a round, and what the round returns.
abbrev pub Created : Type 0 → Type 0
Created I = ℕ × Result Str I

module _ {I : Type 0} (pid : ℕ) (fault : ℕ → Option I) (d : Directory) where
  -- By the outcome of `create_new`, for this name or in the later rounds.
  abbrev pub on_open : ℕ → Option I → Option Str → Option (Created I) → Option (Created I)
  on_open id (some e) there rest = some ((id + 1) % u64_mod, err e)
  on_open id none (some old) rest = rest
  on_open id none none rest = some ((id + 1) % u64_mod, ok (temp_name pid id))

  -- `id` is the counter; none is that the fuel ran out.
  unfoldable pub create_temp : ℕ → ℕ → Option (Created I)
  create_temp zero id = none
  create_temp (suc fuel) id =
      on_open id (fault id) (d (temp_name pid id)) (create_temp fuel ((id + 1) % u64_mod))

-- Membership, and a list without one of its members.
abbrev pub In : Str → List Str → Type 0
In n [] = ⊥
In n (m ∷ ms) = (n ≡ m) ⊎ In n ms

record Without (n : Str) (ns : List Str) : Type 0 where
  others : List Str
  shorter : length ns ≡ suc (length others)
  rest : (m : Str) → m ≢ n → In m ns → In m others

without : (n : Str) (ns : List Str) → In n ns → Without n ns
without n [] h = absurd h
without n (m ∷ ms) (inl e) = record {
  others = ms;
  shorter = refl;
  rest = λ k ne i. elim i [ inl f ↦ absurd (ne (f ∙ sym e)) | inr j ↦ j ];
}
without n (m ∷ ms) (inr i) =
    let w = without n ms i in
    record {
      others = m ∷ w.others;
      shorter = ap suc w.shorter;
      rest = λ k ne j. elim j [ inl f ↦ inl f | inr l ↦ inr (w.rest k ne l) ];
    }

temp_name_injective :
    (pid a b : ℕ) → a < u64_mod → b < u64_mod → temp_name pid a ≡ temp_name pid b → a ≡ b
unfolding temp_name
temp_name_injective pid a b ha hb e =
    let p = temp_prefix pid in
    let same : digits 20 a ≡ digits 20 b =
      sym (drop-append p (digits 20 a)) ∙ ap (drop (length p)) e ∙ drop-append p (digits 20 b) in
    eq_of_some (
      sym (read_digits-digits 20 a (omega arith))
      ∙ ap (read_digits 0) same
      ∙ read_digits-digits 20 b (omega arith))

module _ {I : Type 0} (pid start : ℕ) (fault : ℕ → Option I) (d : Directory) where
  -- The counter behind `i` rounds.
  abbrev id_at : ℕ → ℕ
  id_at i = (start + i) % u64_mod

  id_at-suc : (i : ℕ) → (id_at i + 1) % u64_mod ≡ id_at (suc i)
  id_at-suc i = omega arith

  distinct : (i j : ℕ) → i < j → j < i + u64_mod → temp_name pid (id_at j) ≢ temp_name pid (id_at i)
  distinct i j l u e =
      let same = temp_name_injective pid (id_at j) (id_at i) (omega arith) (omega arith) e in
      absurd (omega arith)

  -- The names that later rounds find taken are in the list.
  abbrev Covers : List Str → ℕ → Type 0
  Covers ns i =
      (j : ℕ)
      → i ≤ j
      → j < u64_mod
      → d (temp_name pid (id_at j)) ≢ none
      → In (temp_name pid (id_at j)) ns

  -- A result, with a name that is free.
  abbrev pub Finds : Option (Created I) → Type 0
  Finds none = ⊥
  Finds (some (next, ok name)) = d name ≡ none
  Finds (some (next, err e)) = Unit

  round :
      (id : ℕ) (o : Option I) (there : Option Str) (rest : Option (Created I))
      → d (temp_name pid id) ≡ there
      → (there ≢ none → Finds rest)
      → Finds (on_open pid fault d id o there rest)
  round id (some e) there rest h k = tt
  round id none none rest h k = h
  round id none (some old) rest h k = k λ e. cc

  Finds-from :
      (fuel i : ℕ) (ns : List Str)
      → length ns < fuel
      → i + length ns < u64_mod
      → Covers ns i
      → Finds (create_temp pid fault d fuel (id_at i))
  unfolding create_temp
  Finds-from zero i ns l u c = absurd (omega arith)
  Finds-from (suc fuel) i ns l u c =
      round (id_at i) (fault (id_at i)) (d (temp_name pid (id_at i))) _ refl λ taken.
        let w = without (temp_name pid (id_at i)) ns (c i (omega arith) (omega arith) taken) in
        let shorter = w.shorter in
        rw (id_at-suc i) (
          Finds-from fuel (suc i) w.others (omega arith) (omega arith) λ j low high t.
            w.rest (temp_name pid (id_at j)) (distinct i j (omega arith) (omega arith))
              (c j (omega arith) high t))

  -- The loop ends: with the files of the directory in a list, fewer than the counter has values, and
  -- a round more than there are files, `create` returns, a name that is free or the error of a call
  -- that failed. This holds from every value of the counter, which may wrap around.
  pub create_temp-Finds :
      (fuel : ℕ) (ns : List Str)
      → start < u64_mod
      → ((n : Str) → d n ≢ none → In n ns)
      → length ns < u64_mod
      → length ns < fuel
      → Finds (create_temp pid fault d fuel start)
  create_temp-Finds fuel ns s all u l =
      let same : id_at 0 ≡ start = omega arith in
      subst (λ k. Finds (create_temp pid fault d fuel k)) same
        (Finds-from fuel 0 ns l (omega arith) (λ j _ _ t. all (temp_name pid (id_at j)) t))

-- A name that `create` uses for a process.
abbrev pub IsTempName : ℕ → Str → Type 0
IsTempName pid name = (id : ℕ) × (name ≡ temp_name pid id)

module _ {I : Type 0} (pid : ℕ) (fault : ℕ → Option I) (d : Directory) where
  -- What is taken is such a name, and was free.
  abbrev pub IsTaken : Option (Created I) → Str → Type 0
  IsTaken r name = (next : ℕ) → r ≡ some (next, ok name) → (d name ≡ none) × IsTempName pid name

  on_open-IsTaken :
      (id : ℕ) (o : Option I) (there : Option Str) (rest : Option (Created I)) (name : Str)
      → d (temp_name pid id) ≡ there
      → IsTaken rest name
      → IsTaken (on_open pid fault d id o there rest) name
  on_open-IsTaken id (some e) there rest name h k next r = absurd (cc)
  on_open-IsTaken id none none rest name h k next r =
      let same : temp_name pid id ≡ name = eq_of_ok (ap second (eq_of_some r)) in
      (ap d (sym same) ∙ h, (id, sym same))
    where
      second : ℕ × Result Str I → Result Str I
      second (a, b) = b
  on_open-IsTaken id none (some old) rest name h k next r = k next r

  pub create_temp-IsTaken :
      (fuel id : ℕ) (name : Str) → IsTaken (create_temp pid fault d fuel id) name
  unfolding create_temp
  create_temp-IsTaken zero id name next r = absurd (cc)
  create_temp-IsTaken (suc fuel) id name next r =
      on_open-IsTaken id (fault id) (d (temp_name pid id)) _ name refl
        (create_temp-IsTaken fuel ((id + 1) % u64_mod) name) next r

  -- No error where no call fails.
  abbrev pub IsNoError : Option (Created I) → Type 0
  IsNoError (some (next, err e)) = ⊥
  IsNoError other = Unit

  pub create_temp-IsNoError :
      (fuel id : ℕ) → ((i : ℕ) → fault i ≡ none) → IsNoError (create_temp pid fault d fuel id)
  unfolding create_temp
  create_temp-IsNoError zero id works = tt
  create_temp-IsNoError (suc fuel) id works =
      rw (works id)
        (opened (d (temp_name pid id)) _ (create_temp-IsNoError fuel ((id + 1) % u64_mod) works))
    where
      opened :
          (there : Option Str) (rest : Option (Created I))
          → IsNoError rest
          → IsNoError (on_open pid fault d id none there rest)
      opened none rest k = tt
      opened (some old) rest k = k
