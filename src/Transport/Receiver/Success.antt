-- ===== src/Transport/Receiver/Success.antt =====
-- A reception of crates/einvoice-transport/src/receiver.rs in which nothing fails succeeds.
use tw_einvoice_rs.Base.{
  ℕ, ◌<◌, ◌≡◌, ◌≢◌, ◌⊎◌, inl, inr, refl, ◌∙◌, true, false, Bool-cases, Option, none, some, List, [],
  ◌∷◌, Str, length, str_eq, str_eq_iff, ◌==◌, ==_iff, Result, ok, err, arith,
}
use tw_einvoice_rs.Transport.Receiver.Files.{Directory, put, put_same, put_other, remove_other}
use tw_einvoice_rs.Transport.Receiver.FilesEqual.{reads_left, reads_right, files_equal-str_eq}
use tw_einvoice_rs.Transport.Receiver.TempName.{
  Created, u64_mod, temp_name, create_temp, In, Finds, create_temp-Finds, IsNoError,
  create_temp-IsNoError,
}
use tw_einvoice_rs.Transport.Receiver.{
  ReceiveOutcome, persisted, already_persisted, RemoteObject, is_unsafe_name, FsStep, FileSystem,
  opens_temp, syncs_temp, reads_size, links, syncs_directory, compares, Received, created, create,
  published, check_size, receive,
}
use tw_einvoice_rs.Transport.Receiver.Durable.{deletion_asked, create-IsTaken, receive-Good}

-- The files of the directory have their names in the list.
abbrev pub Covers : List Str → Directory → Type 0
Covers names d = (n : Str) → d n ≢ none → In n names

-- The list is not too long for the counter, and the loop has a round more than it has names.
abbrev pub HasRounds : {I : Type 0} → List Str → FileSystem I → Type 0
HasRounds names fs = (length names < u64_mod) × (length names < fs.rounds)

-- The name is free, or holds these bytes.
abbrev pub Fits : RemoteObject → Str → Directory → Type 0
Fits o bytes d = (d o.name ≡ none) ⊎ (d o.name ≡ some bytes)

-- The name is allowed, and the object has the announced size, which is not 0.
abbrev pub IsReceivable : RemoteObject → Str → Type 0
IsReceivable o bytes = (is_unsafe_name o.name ≡ false) × (length bytes ≡ o.size) × (0 < o.size)

-- No name of a temporary file of the process.
abbrev pub IsApart : {I : Type 0} → FileSystem I → RemoteObject → Type 0
IsApart fs o = (id : ℕ) → o.name ≢ temp_name fs.pid id

-- No call fails, and files are compared in pieces of one size.
abbrev pub IsSound : {I : Type 0} → FileSystem I → Type 0
IsSound fs =
    ((step : FsStep) → fs.fault step ≡ none)
    × ((n : ℕ) → fs.available (reads_left n) ≡ fs.available (reads_right n))
    × (fs.next_temp_id < u64_mod)

pub move-Fits :
    (o : RemoteObject) (bytes : Str) (d d' : Directory)
    → d' o.name ≡ d o.name
    → Fits o bytes d
    → Fits o bytes d'
move-Fits o bytes d d' e (inl h) = inl (e ∙ h)
move-Fits o bytes d d' e (inr h) = inr (e ∙ h)

-- With a list of the files and the rounds, a temporary file is created.
create-IsOk :
    {I : Type 0} (fs : FileSystem I) (d : Directory) (names : List Str)
    → IsSound fs
    → Covers names d
    → HasRounds names fs
    → (temp : Str) × (create fs d ≡ ok temp)
create-IsOk {I = I} fs d names sound covers has =
    let fault : ℕ → Option I = λ id. fs.fault (opens_temp id) in
    found (create_temp fs.pid fault d fs.rounds fs.next_temp_id)
      (create_temp-Finds fs.pid fs.next_temp_id fault d fs.rounds names sound.2 covers has.0 has.1)
      (create_temp-IsNoError fs.pid fault d fs.rounds fs.next_temp_id
        (λ id. sound.0 (opens_temp id)))
  where
    found :
        (r : Option (Created I))
        → Finds fs.pid fs.next_temp_id (λ id. fs.fault (opens_temp id)) d r
        → IsNoError fs.pid (λ id. fs.fault (opens_temp id)) d r
        → (temp : Str) × (created fs r ≡ ok temp)
    found none f g = absurd f
    found (some (next, ok temp)) f g = (temp, refl)
    found (some (next, err e)) f g = absurd g

-- What a success leaves: the object in the directory, and its deletion asked for.
abbrev pub IsDone : {E I : Type 0} → RemoteObject → Str → Received E I → Type 0
IsDone o bytes r =
    (outcome : ReceiveOutcome) × ((outcome ≡ persisted o.name)
      ⊎ (outcome ≡ already_persisted o.name))
    × (r.result ≡ ok outcome)
    × (deletion_asked r.calls ≡ true)
    × (r.directory o.name ≡ some bytes)

module _ {E I : Type 0} (fs : FileSystem I) (download : RemoteObject → Result Str E)
    (delete : RemoteObject → Result (Unit {0}) E) (o : RemoteObject) where
  -- Behind a reception the directory has at most the object's name more.
  pub receive-Covers :
      (d : Directory) (names : List Str)
      → ((n : Str) → n ≢ o.name → d n ≢ none → In n names)
      → Covers (o.name ∷ names) (receive fs download delete d o).directory
  receive-Covers d names covers n h = elim (Bool-cases (str_eq n o.name)) [
    | inl e ↦ inl ((str_eq_iff n o.name).0 e)
    | inr e ↦
        let apart : n ≢ o.name = λ k. let f = (str_eq_iff n o.name).1 k in cc in
        let same = (receive-Good fs download delete d o).0.0 n apart in
        inr (covers n apart (λ k. h (same ∙ k)))
  ]

  module _ (bytes : Str) where
    published-IsDone :
        (d : Directory) (there : Option Str)
        → IsSound fs
        → delete o ≡ ok tt
        → d o.name ≡ there
        → (there ≡ none) ⊎ (there ≡ some bytes)
        → IsDone o bytes (published fs download delete d o bytes there)
    published-IsDone d none w deleted e f =
        rw (w.0 syncs_directory)
          (persisted o.name, inl refl, rw deleted refl, refl, put_same d o.name bytes)
    published-IsDone d (some old) w deleted e (inl f) = cc
    published-IsDone d (some old) w deleted e (inr f) =
        let same : str_eq bytes old ≡ true = (str_eq_iff bytes old).1 (cc) in
        rw
          (
            files_equal-str_eq (λ call. fs.fault (compares call)) fs.available bytes old
                (λ call. w.0 (compares call)) w.1,
            same,
          )
          (already_persisted o.name, inr refl, rw deleted refl, refl, e ∙ f)

    check_size-IsDone :
        (d : Directory)
        → IsSound fs
        → delete o ≡ ok tt
        → IsReceivable o bytes
        → Fits o bytes d
        → IsDone o bytes (check_size fs download delete d o bytes)
    check_size-IsDone d w deleted (safe, size, positive) f =
        let full : (length bytes == 0) ≡ false = ground arith in
        let same : (length bytes == o.size) ≡ true = (==_iff (length bytes) o.size).1 size in
        rw (full, same, w.0 links) (published-IsDone d (d o.name) w deleted refl f)

    -- Where no call fails, the names of the directory are listed, and the object fits in.
    pub receive-IsDone :
        (d : Directory) (names : List Str)
        → IsSound fs
        → Covers names d
        → HasRounds names fs
        → IsApart fs o
        → download o ≡ ok bytes
        → delete o ≡ ok tt
        → IsReceivable o bytes
        → Fits o bytes d
        → IsDone o bytes (receive fs download delete d o)
    unfolding receive
    receive-IsDone d names w covers has apart arrived deleted r f =
        let (temp, e) = create-IsOk fs d names w covers has in
        let (free, (id, named)) = create-IsTaken fs d temp e in
        let other : o.name ≢ temp = λ k. apart id (k ∙ named) in
        let d1 = put d temp [] in
        let d2 = put d1 temp bytes in
        let f1 = move-Fits o bytes d d1 (put_other d temp [] o.name other) f in
        let f2 = move-Fits o bytes d1 d2 (put_other d1 temp bytes o.name other) f1 in
        let i = check_size-IsDone d2 w deleted r f2 in
        rw (r.0, e, arrived, w.0 syncs_temp, w.0 reads_size)
          (
            i.0,
            i.1,
            i.2,
            i.3,
            remove_other (check_size fs download delete d2 o bytes).directory temp o.name other
                ∙ i.4,
          )
