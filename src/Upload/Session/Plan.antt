-- ===== src/Upload/Session/Plan.antt =====
-- How a file is cut into parts, and what a request to start a session leaves behind.
use microservices_base_platf.Prelude.{
  ℕ, zero, suc, ◌+◌, ◌-◌, ◌*◌, ◌≤◌, ◌<◌, ◌≡◌, refl, ap, inl, inr, String, true, false, Option, none,
  some, List, [], ◌∷◌, ◌++◌, map, All, Option-cases, ltb, arith,
}
use microservices_base_platf.Platform.Errors.{ok}
use microservices_base_platf.Upload.Domain.{
  Uuid, UploadSession, UploadPart, UploadConfig, Video, SessionStatus, PartStatus, VideoStatus,
  get_video,
}
use microservices_base_platf.Upload.Effects.{World, Answers, StorageCall}
use microservices_base_platf.Upload.Session.{
  min_part_size_bytes, max_part_count, mime_type_allowed, part_size, ceil_div, at_least_one,
  new_parts, InitChunkedUploadRequest, new_session, init_chunked_upload,
}

part_size-ge : (mb : ℕ) → min_part_size_bytes ≤ part_size mb
unfolding part_size
part_size-ge mb = ground arith

ceil_div-ge : (size part : ℕ) → 0 < part → size ≤ ceil_div size part * part
unfolding ceil_div
ceil_div-ge size part h = grind arith

ceil_div-lt : (size part : ℕ) → 0 < part → 0 < size → (ceil_div size part - 1) * part < size
unfolding ceil_div
ceil_div-lt size part h k = grind arith

at_least_one-ge : (size n part : ℕ) → size ≤ n * part → size ≤ at_least_one n * part
at_least_one-ge size zero part h = omega arith
at_least_one-ge size (suc n) part h = ground arith

at_least_one-lt :
    (size n part : ℕ) → 0 < size → (n - 1) * part < size → (at_least_one n - 1) * part < size
at_least_one-lt size zero part k h = omega arith
at_least_one-lt size (suc n) part k h = ground arith

-- Numbers that count on from `i + 1`.
abbrev pub numbers_from : ℕ → ℕ → List ℕ
numbers_from i zero = []
numbers_from i (suc n) = (i + 1) ∷ numbers_from (suc i) n

new_parts-numbers :
    (a : Answers) (id i n : ℕ) → map (λ p. p.part_number) (new_parts a id i n) ≡ numbers_from i n
unfolding new_parts
new_parts-numbers a id i zero = refl
new_parts-numbers a id i (suc n) = ap (◌∷◌ (i + 1)) (new_parts-numbers a id (suc i) n)

-- A part of this session that waits for its upload.
abbrev pub IsFresh : Uuid → UploadPart → Type 0
IsFresh id p = (p.session_id ≡ id) × (p.status ≡ PartStatus.pending) × (p.etag ≡ [])

pub new_parts-IsFresh : (a : Answers) (id i n : ℕ) → All (IsFresh id) (new_parts a id i n)
unfolding new_parts
new_parts-IsFresh a id i zero = tt
new_parts-IsFresh a id i (suc n) = ((refl, refl, refl), new_parts-IsFresh a id (suc i) n)

-- The parts cover the file, and none of them is superfluous.
pub record Covers (s : UploadSession) : Type 0 where
  pub large : min_part_size_bytes ≤ s.part_size_bytes
  pub some_part : 1 ≤ s.total_parts
  pub few : s.total_parts ≤ max_part_count
  pub enough : s.total_size_bytes ≤ s.total_parts * s.part_size_bytes
  pub needed : 0 < s.total_size_bytes → (s.total_parts - 1) * s.part_size_bytes < s.total_size_bytes

new_session-Covers :
    (cfg : UploadConfig) (a : Answers) (id : Uuid) (v : Video) (req : InitChunkedUploadRequest)
    (u : String)
    → ltb max_part_count (ceil_div req.size_bytes (part_size cfg.chunk_size_mb)) ≡ false
    → Covers (
        new_session cfg a id v req u
          (at_least_one (ceil_div req.size_bytes (part_size cfg.chunk_size_mb))))
new_session-Covers cfg a id v req u h = record {
  large = part_size-ge cfg.chunk_size_mb;
  some_part = ground arith;
  few = ground arith;
  enough = at_least_one-ge req.size_bytes _ _ (ceil_div-ge req.size_bytes _ positive);
  needed = λ k. at_least_one-lt req.size_bytes _ _ k (ceil_div-lt req.size_bytes _ positive k);
}
  where
    positive : 0 < part_size cfg.chunk_size_mb
    positive = omega (arith, part_size-ge cfg.chunk_size_mb)

module _ (parse_uuid : String → Option Uuid) (cfg : UploadConfig) (a : Answers)
    (req : InitChunkedUploadRequest) (w : World) where
  count : ℕ
  count = at_least_one (ceil_div req.size_bytes (part_size cfg.chunk_size_mb))

  -- A request that succeeds has found a parseable id, its video and a new multipart upload.
  init_found :
      (s : UploadSession)
      → (init_chunked_upload parse_uuid cfg a req w).1 ≡ ok s
      → (id : Uuid) × (v : Video) × (u : String) × (parse_uuid req.video_id ≡ some id)
        × (get_video id w.videos ≡ some v)
        × (a.new_upload_id ≡ some u)
  unfolding init_chunked_upload
  init_found s h = elim (Option-cases (parse_uuid req.video_id)) [
    | inl e ↦ absurd (ground arith)
    | inr (id, e) ↦ elim (Option-cases (get_video id w.videos)) [
      | inl g ↦ absurd (ground arith)
      | inr (v, g) ↦ elim (Option-cases a.new_upload_id) [
        | inl n ↦ absurd (ground arith)
        | inr (u, n) ↦ (id, v, u, e, g, n)
      ]
    ]
  ]

  init_tests :
      (id : Uuid) (v : Video) (u : String) (s : UploadSession)
      → parse_uuid req.video_id ≡ some id
      → get_video id w.videos ≡ some v
      → a.new_upload_id ≡ some u
      → (init_chunked_upload parse_uuid cfg a req w).1 ≡ ok s
      → (mime_type_allowed cfg req.mime_type ≡ true)
        × (ltb cfg.max_size_bytes req.size_bytes ≡ false)
        × (ltb max_part_count (ceil_div req.size_bytes (part_size cfg.chunk_size_mb)) ≡ false)
        × (a.read_video ≡ none)
        × (v.status ≡ VideoStatus.pending_upload)
        × (a.create_session ≡ none)
  unfolding init_chunked_upload
  init_tests id v u s e g n h = ground arith

  init_result :
      (id : Uuid) (v : Video) (u : String) (s : UploadSession)
      → parse_uuid req.video_id ≡ some id
      → get_video id w.videos ≡ some v
      → a.new_upload_id ≡ some u
      → (init_chunked_upload parse_uuid cfg a req w).1 ≡ ok s
      → init_chunked_upload parse_uuid cfg a req w ≡ (
        record w {
          sessions = w.sessions ++ new_session cfg a id v req u count ∷ [];
          parts = w.parts ++ new_parts a a.new_id 0 count;
          storage = w.storage ++ StorageCall.create_multipart v.object_key u ∷ [];
        },
        ok (new_session cfg a id v req u count),
      )
  unfolding init_chunked_upload count
  init_result id v u s e g n h =
      let (m, l, c, r, p, o) = init_tests id v u s e g n h in rw (m, l, c, e, g, r, p, n, o)

  -- A request to start a session that succeeds has found a video that waits for its upload, and
  -- has cut the file into 1 to 10,000 parts of at least 5 MB each that cover it, the last one not
  -- without need. It leaves one new session and its parts, numbered from 1 in order, each of them
  -- pending and without an ETag, and has started one multipart upload.
  pub init_chunked_upload-Covers :
      (s : UploadSession)
      → (init_chunked_upload parse_uuid cfg a req w).1 ≡ ok s
      → let w' = (init_chunked_upload parse_uuid cfg a req w).0 in
        (parts : List UploadPart) × Covers s
        × (s.status ≡ SessionStatus.initiated)
        × (s.total_size_bytes ≡ req.size_bytes)
        × (w'.sessions ≡ w.sessions ++ s ∷ [])
        × (w'.parts ≡ w.parts ++ parts)
        × (map (λ p. p.part_number) parts ≡ numbers_from 0 s.total_parts)
        × All (IsFresh s.id) parts
        × ((v : Video) × (get_video s.video_id w.videos ≡ some v)
            × (v.status ≡ VideoStatus.pending_upload)
            × (w'.storage
                ≡ w.storage ++ StorageCall.create_multipart v.object_key s.s3_upload_id ∷ []))
  unfolding count
  init_chunked_upload-Covers s h =
      let (id, v, u, e, g, n) = init_found s h in
      let tests = init_tests id v u s e g n h in
      let res = init_result id v u s e g n h in
      let same : s ≡ new_session cfg a id v req u count = cc (ap (λ t. t.1) res) in
      rw (res, same)
        (
          new_parts a a.new_id 0 count,
          new_session-Covers cfg a id v req u tests.2,
          refl,
          refl,
          refl,
          refl,
          new_parts-numbers a a.new_id 0 count,
          new_parts-IsFresh a a.new_id 0 count,
          (v, g, tests.4, refl),
        )
