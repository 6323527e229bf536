-- ===== src/Transport/Receiver/Durable.antt =====
-- Nothing is deleted remotely that is not in the directory, and no other file of it changes.
use tw_einvoice_rs.Base.{
  ◌<◌, ◌≡◌, ◌≢◌, ◌⊎◌, refl, sym, ap, ◌∙◌, Bool, true, false, Bool-cases, inl, inr, Option, none,
  some, List, [], ◌∷◌, Str, length, str_eq, str_eq_iff, ◌==◌, ==_iff, Result, ok, err, arith,
}
use tw_einvoice_rs.Transport.Receiver.Files.{
  Directory, put, remove, put_same, put_other, remove_same, remove_other,
}
use tw_einvoice_rs.Transport.Receiver.FilesEqual.{files_equal-true}
use tw_einvoice_rs.Transport.Receiver.TempName.{
  Created, create_temp, IsTempName, create_temp-IsTaken,
}
use tw_einvoice_rs.Transport.Receiver.{
  io_error, conflicting_local_object, empty_object, size_mismatch, RemoteObject, is_unsafe_name,
  FileSystem, opens_temp, syncs_temp, reads_size, links, syncs_directory, compares, RemoteCall,
  downloads, deletes, Received, ReceiveError, created, create, published, compared, check_size,
  downloaded, drop_temp, with_temp, receive, unless_fault, failed,
}

-- Whether the deletion of the object was asked for.
abbrev pub deletion_asked : List RemoteCall → Bool
deletion_asked [] = false
deletion_asked (downloads o ∷ cs) = deletion_asked cs
deletion_asked (deletes o ∷ cs) = true

-- The directory is as before, but that there may be a new file of this name.
abbrev pub Keeps : Str → Directory → Directory → Type 0
Keeps name d d' =
    ((n : Str) → n ≢ name → d' n ≡ d n) × ((b : Str) → d name ≡ some b → d' name ≡ some b)

Keeps-refl : (name : Str) (d : Directory) → Keeps name d d
Keeps-refl name d = (λ n h. refl, λ b h. h)

Keeps-put : (d : Directory) (name bytes : Str) → d name ≡ none → Keeps name d (put d name bytes)
Keeps-put d name bytes free =
    (λ n h. put_other d name bytes n h, λ b h. absurd (let f = sym h ∙ free in cc))

-- The temporary file, which was not there, is made and removed around what keeps the rest.
Keeps-temp :
    (d m r : Directory) (name temp : Str)
    → d temp ≡ none
    → ((n : Str) → n ≢ temp → m n ≡ d n)
    → Keeps name m r
    → Keeps name d (remove r temp)
Keeps-temp d m r name temp free around (other, own) = (
  λ n h. elim (Bool-cases (str_eq n temp)) [
    | inl e ↦
        let same = (str_eq_iff n temp).0 e in
        ap (remove r temp) same ∙ remove_same r temp ∙ sym free ∙ sym (ap d same)
    | inr e ↦
        let apart : n ≢ temp = λ k. let f = (str_eq_iff n temp).1 k in cc in
        remove_other r temp n apart ∙ other n h ∙ around n apart
  ],
  λ b h.
      let apart : name ≢ temp = λ k. let f = sym h ∙ ap d k ∙ free in cc in
      remove_other r temp name apart ∙ own b (around name apart ∙ h),
)

pub create-IsTaken :
    {I : Type 0} (fs : FileSystem I) (d : Directory) (temp : Str)
    → create fs d ≡ ok temp
    → (d temp ≡ none) × IsTempName fs.pid temp
create-IsTaken {I = I} fs d temp h = taken _ refl h
  where
    taken :
        (r : Option (Created I))
        → create_temp fs.pid (λ id. fs.fault (opens_temp id)) d fs.rounds fs.next_temp_id ≡ r
        → created fs r ≡ ok temp
        → (d temp ≡ none) × IsTempName fs.pid temp
    taken none e k = absurd (cc)
    taken (some (next, result)) e k =
        create_temp-IsTaken fs.pid (λ id. fs.fault (opens_temp id)) d fs.rounds fs.next_temp_id temp
          next (e ∙ ap (λ x. some (next, x)) k)

module _ {E I : Type 0} (fs : FileSystem I) (download : RemoteObject → Result Str E)
    (delete : RemoteObject → Result Unit E) where
  -- The directory is kept, and `P` holds of it where the deletion was asked for.
  abbrev pub Good : Str → Directory → (Directory → Type 0) → Received E I → Type 0
  Good name d P r = Keeps name d r.directory × (deletion_asked r.calls ≡ true → P r.directory)

  -- A failure asks for no deletion.
  failed-Good :
      (d d' : Directory) (o : RemoteObject) (P : Directory → Type 0) (e : ReceiveError E I)
      → Keeps o.name d d'
      → Good o.name d P (failed fs download delete d' o e)
  failed-Good d d' o P e k = (k, λ h. absurd (cc))

  unless_fault-Good :
      (f : Option I) (d d' : Directory) (o : RemoteObject) (P : Directory → Type 0)
      (r : Received E I)
      → Keeps o.name d d'
      → Good o.name d P r
      → Good o.name d P (unless_fault fs download delete f d' o r)
  unless_fault-Good none d d' o P r k g = g
  unless_fault-Good (some e) d d' o P r k g = failed-Good d d' o P (io_error e) k

  Holds : RemoteObject → Str → Directory → Type 0
  Holds o bytes d = d o.name ≡ some bytes

  compared-Good :
      (d : Directory) (o : RemoteObject) (bytes old : Str) (r : Option (Result Bool I))
      → d o.name ≡ some old
      → (r ≡ some (ok true) → bytes ≡ old)
      → Good o.name d (Holds o bytes) (compared fs download delete d o r)
  unfolding Holds
  compared-Good d o bytes old none e k =
      failed-Good d d o (Holds o bytes) (io_error fs.stopped) (Keeps-refl o.name d)
  compared-Good d o bytes old (some (err x)) e k =
      failed-Good d d o (Holds o bytes) (io_error x) (Keeps-refl o.name d)
  compared-Good d o bytes old (some (ok true)) e k =
      (Keeps-refl o.name d, λ h. e ∙ ap some (sym (k refl)))
  compared-Good d o bytes old (some (ok false)) e k =
      failed-Good d d o (Holds o bytes) (conflicting_local_object o.name) (Keeps-refl o.name d)

  published-Good :
      (d : Directory) (o : RemoteObject) (bytes : Str) (there : Option Str)
      → d o.name ≡ there
      → Good o.name d (Holds o bytes) (published fs download delete d o bytes there)
  unfolding Holds
  published-Good d o bytes none e =
      unless_fault-Good (fs.fault syncs_directory) d (put d o.name bytes) o (Holds o bytes) _
        (Keeps-put d o.name bytes e) (Keeps-put d o.name bytes e, λ h. put_same d o.name bytes)
  published-Good d o bytes (some old) e =
      compared-Good d o bytes old _ e
        (files_equal-true (λ call. fs.fault (compares call)) fs.available bytes old)

  -- The object is in the directory with these bytes, of the announced size, which is not 0.
  abbrev pub IsStored : RemoteObject → Str → Directory → Type 0
  IsStored o bytes d = (d o.name ≡ some bytes) × (length bytes ≡ o.size) × (0 < o.size)

  check_size-Good :
      (d : Directory) (o : RemoteObject) (bytes : Str)
      → Good o.name d (IsStored o bytes) (check_size fs download delete d o bytes)
  unfolding Holds
  check_size-Good d o bytes = elim (Bool-cases (length bytes == 0)) [
    | inl empty ↦
        rw empty (failed-Good d d o (IsStored o bytes) (empty_object o.name) (Keeps-refl o.name d))
    | inr full ↦ elim (Bool-cases (length bytes == o.size)) [
      | inr other ↦ rw full (
          rw other (
            failed-Good d d o (IsStored o bytes) (size_mismatch o.name o.size (length bytes))
              (Keeps-refl o.name d)))
      | inl same ↦
          let size = (==_iff (length bytes) o.size).0 same in
          let positive : 0 < o.size = ground arith in
          let (k, stored) =
            unless_fault-Good (fs.fault links) d d o (Holds o bytes) _ (Keeps-refl o.name d)
              (published-Good d o bytes (d o.name) refl) in
          rw full (rw same (k, λ h. (stored h, size, positive)))
    ]
  ]

  -- The stored bytes are those that were downloaded.
  abbrev pub IsReceived : RemoteObject → Directory → Type 0
  IsReceived o d = (bytes : Str) × (download o ≡ ok bytes) × IsStored o bytes d

  abbrev pub IsReceivedOr : RemoteObject → Directory → Type 0
  IsReceivedOr o d = IsTempName fs.pid o.name ⊎ IsReceived o d

  -- Without the temporary file again.
  dropped-Good :
      (d : Directory) (o : RemoteObject) (temp bytes : Str) (r : Received E I)
      → (d temp ≡ none) × IsTempName fs.pid temp
      → download o ≡ ok bytes
      → Good o.name (put (put d temp []) temp bytes) (IsStored o bytes) r
      → Good o.name d (IsReceivedOr o) (drop_temp fs download delete temp r)
  dropped-Good d o temp bytes r (free, (id, e)) h (k, g) = (
    Keeps-temp d (put (put d temp []) temp bytes) r.directory o.name temp free
        (λ n apart. put_other (put d temp []) temp bytes n apart ∙ put_other d temp [] n apart) k,
    λ a. elim (Bool-cases (str_eq o.name temp)) [
      | inl q ↦ inl (id, (str_eq_iff o.name temp).0 q ∙ e)
      | inr q ↦
          let apart : o.name ≢ temp = λ x. let f = (str_eq_iff o.name temp).1 x in cc in
          let stored = g a in
          inr
            (bytes, h, (remove_other r.directory temp o.name apart ∙ stored.0, stored.1, stored.2))
    ],
  )

  downloaded-Good :
      (d : Directory) (o : RemoteObject) (temp : Str) (r : Result Str E)
      → (d temp ≡ none) × IsTempName fs.pid temp
      → download o ≡ r
      → Good o.name d (IsReceivedOr o) (
          drop_temp fs download delete temp
            (downloaded fs download delete temp (put d temp []) o r))
  downloaded-Good d o temp (err e) taken h = (
    Keeps-temp d (put d temp []) (put d temp []) o.name temp taken.0
        (λ n apart. put_other d temp [] n apart) (Keeps-refl o.name (put d temp [])),
    λ a. absurd (cc),
  )
  downloaded-Good d o temp (ok bytes) taken h =
      let d' = put (put d temp []) temp bytes in
      let r = downloaded fs download delete temp (put d temp []) o (ok bytes) in
      dropped-Good d o temp bytes r taken h (
        unless_fault-Good (fs.fault syncs_temp) d' d' o (IsStored o bytes) _ (Keeps-refl o.name d')
          (unless_fault-Good (fs.fault reads_size) d' d' o (IsStored o bytes) _
            (Keeps-refl o.name d') (check_size-Good d' o bytes)))

  with_temp-Good :
      (d : Directory) (o : RemoteObject) (temp : Result Str I)
      → create fs d ≡ temp
      → Good o.name d (IsReceivedOr o) (with_temp fs download delete d o temp)
  with_temp-Good d o (err e) h = (Keeps-refl o.name d, λ a. absurd (cc))
  with_temp-Good d o (ok temp) h =
      downloaded-Good d o temp (download o) (create-IsTaken fs d temp h) refl

  pub receive-Good :
      (d : Directory) (o : RemoteObject)
      → Good o.name d (IsReceivedOr o) (receive fs download delete d o)
  unfolding receive
  receive-Good d o = elim (Bool-cases (is_unsafe_name o.name)) [
    | inl bad ↦ rw bad (Keeps-refl o.name d, λ h. absurd (cc))
    | inr safe ↦ rw safe (with_temp-Good d o (create fs d) refl)
  ]
