-- ===== src/Upload/Keeps.antt =====
-- An invariant of the upload service's tables and storage calls, and the rules by which the
-- handlers' `do` blocks keep it.
pub mod Parts
pub mod Ends
pub mod Videos
use microservices_base_platf.Prelude.{
  ℕ, ◌≡◌, refl, ◌≢◌, ◌⊎◌, inl, inr, String, Bool, true, false, Option, none, some, List, [], ◌∷◌,
  ◌++◌, Bool-cases, Option-cases, All, All-append, All-first,
}
use microservices_base_platf.Platform.Errors.{AppError, Result, ok, err}
use microservices_base_platf.Upload.Domain.{
  Uuid, UploadSession, UploadPart, Video, PartStatus, get_session, get_part, get_video,
}
use microservices_base_platf.Upload.Effects.{
  World, Answers, StorageCall, M, ◌>>=◌, ◌>>◌, continue, return, fail_if, must, attempt, found,
  find_session, find_part, find_video, record_call, publish_uploaded_event,
}

abbrev pub HasEtag : UploadPart → Type 0
HasEtag p = p.status ≡ PartStatus.uploaded → p.etag ≢ []

abbrev pub IsAssemblable : StorageCall → Type 0
IsAssemblable (StorageCall.create_multipart key id) = Unit {0}
IsAssemblable (StorageCall.complete_multipart key id parts) = All (λ p. p.etag ≢ []) parts
IsAssemblable (StorageCall.abort_multipart key id) = Unit {0}
IsAssemblable (StorageCall.delete_object key) = Unit {0}

pub record IsValid (w : World) : Type 0 where
  pub parts_have : All HasEtag w.parts
  pub calls_have : All IsAssemblable w.storage

abbrev pub Any : {A : Type 0} → A → Type 0
Any a = Unit {0}

abbrev pub OnOk : {A : Type 0} → (A → Type 0) → Result A → Type 0
OnOk Q (ok a) = Q a
OnOk Q (err e) = Unit {0}

-- `m` keeps the invariant, and what it returns satisfies `Q`.
pub record Keeps {A : Type 0} (Q : A → Type 0) (m : M A) : Type 0 where
  pub run : (w : World) → IsValid w → IsValid (m w).0 × OnOk Q (m w).1

abbrev pub IsKept : (World → World) → Type 0
IsKept change = (w : World) → IsValid w → IsValid (change w)

module _ {A B : Type 0} {Q : A → Type 0} (R : B → Type 0) where
  continue-Keeps :
      (f : A → M B) (w : World) (r : Result A)
      → ((a : A) → Q a → Keeps R (f a))
      → IsValid w
      → OnOk Q r
      → IsValid (continue f w r).0 × OnOk R (continue f w r).1
  continue-Keeps f w (ok a) k v q = (k a q).run w v
  continue-Keeps f w (err e) k v q = (v, tt)

  pub bind-Keeps :
      (m : M A) (f : A → M B) → Keeps Q m → ((a : A) → Q a → Keeps R (f a)) → Keeps R (m >>= f)
  bind-Keeps m f h k = record {
    run = λ w v. continue-Keeps f (m w).0 (m w).1 k (h.run w v).0 (h.run w v).1;
  }

  -- The same, where nothing is needed of what `m` returns.
  pub then-Keeps :
      (m : M A) (f : A → M B) → Keeps Q m → ((a : A) → Keeps R (f a)) → Keeps R (m >>= f)
  then-Keeps m f h k = bind-Keeps m f h (λ a _. k a)

module _ {B : Type 0} {Q : Unit {0} → Type 0} (R : B → Type 0) where
  pub seq-Keeps : (m : M (Unit {0})) (k : M B) → Keeps Q m → Keeps R k → Keeps R (m >> k)
  seq-Keeps m k h j = bind-Keeps R m (λ _. k) h (λ _ q. j)

pub return-Keeps : {A : Type 0} (Q : A → Type 0) (a : A) → Q a → Keeps Q (return a)
return-Keeps Q a q = record { run = λ w v. (v, q) }

pub fail_if-Keeps : (b : Bool) (e : AppError) → Keeps (λ _. b ≡ false) (fail_if b e)
fail_if-Keeps true e = record { run = λ w v. (v, tt) }
fail_if-Keeps false e = record { run = λ w v. (v, refl) }

-- What follows a guard may use that the guard did not fire.
pub guard-Keeps :
    {B : Type 0} (R : B → Type 0) (b : Bool) (e : AppError) (k : M B)
    → (b ≡ false → Keeps R k)
    → Keeps R (fail_if b e >> k)
guard-Keeps R b e k j = bind-Keeps R (fail_if b e) (λ _. k) (fail_if-Keeps b e) (λ _ q. j q)

pub must-Keeps :
    (o : Option String) (change : World → World) → IsKept change → Keeps Any (must o change)
must-Keeps none change k = record { run = λ w v. (k w v, tt) }
must-Keeps (some e) change k = record { run = λ w v. (v, tt) }

pub attempt-Keeps :
    (o : Option String) (change : World → World) → IsKept change → Keeps Any (attempt o change)
attempt-Keeps none change k = record { run = λ w v. (k w v, tt) }
attempt-Keeps (some e) change k = record { run = λ w v. (v, tt) }

found-Keeps :
    {A : Type 0} (Q : A → Type 0) (o : Option String) (row : Option A) (w : World)
    → ((a : A) → row ≡ some a → Q a)
    → IsValid w
    → IsValid (found o row w).0 × OnOk Q (found o row w).1
found-Keeps Q none none w k v = (v, tt)
found-Keeps Q none (some a) w k v = (v, k a refl)
found-Keeps Q (some e) none w k v = (v, tt)
found-Keeps Q (some e) (some a) w k v = (v, tt)

pub find_session-Keeps : (a : Answers) (id : Uuid) → Keeps Any (find_session a id)
find_session-Keeps a id = record {
  run = λ w v. found-Keeps Any a.read_session (get_session id w.sessions) w (λ s e. tt) v;
}

pub find_video-Keeps : (a : Answers) (id : Uuid) → Keeps Any (find_video a id)
find_video-Keeps a id = record {
  run = λ w v. found-Keeps Any a.read_video (get_video id w.videos) w (λ s e. tt) v;
}

pub find_part-Keeps : (a : Answers) (id number : ℕ) → Keeps HasEtag (find_part a id number)
find_part-Keeps a id number = record {
  run = λ w v.
      found-Keeps HasEtag a.read_part (get_part id number w.parts) w
        (λ p e. All-first HasEtag _ w.parts v.parts_have e) v;
}

pub record_call-IsKept : (c : StorageCall) → IsAssemblable c → IsKept (record_call c)
record_call-IsKept c h w v = record {
  parts_have = v.parts_have;
  calls_have = All-append IsAssemblable w.storage (c ∷ []) v.calls_have (h, tt);
}

pub publish_uploaded_event-Keeps :
    (a : Answers) (x : Video) → Keeps Any (publish_uploaded_event a x)
publish_uploaded_event-Keeps a x =
    attempt-Keeps a.publish _ λ w v. record { parts_have = v.parts_have; calls_have = v.calls_have }
