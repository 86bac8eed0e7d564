-- ===== src/Services/Audited.antt =====
-- Buckets that the provider is asked for.
use mathlib.Core.List.{Memᴰ}
use netriun_nexus.Prelude.{
  ℕ, String, Bool, true, false, ◌≡◌, refl, ap, sym, require, [], ◌∷◌, ◌++◌, ◌⊎◌, inl, inr, arith,
  ok, Ends, Ends-read, mem-append_left, mem-append_right, ◌>>=◌, ◌>>◌,
}
use netriun_nexus.Store.{User, AuditEntry, named}
use netriun_nexus.Text.{TextOps}
use netriun_nexus.Policy.{account_access}
use netriun_nexus.Request.{
  Body, Parsed, positive, negative, malformed, decode, not_json, invalid, trailing, json, entry,
  append_entry,
}
use netriun_nexus.Services.{Services, Bucket}
use netriun_nexus.Services.Handlers.{service_account, region_pattern}
use netriun_nexus.Services.Jobs.{viewed}
use netriun_nexus.Services.Buckets.{
  BucketRequest, name_pattern, recorded, sending, answered, submit_bucket, bucket_of,
  checked_bucket, create_oss_bucket,
}

-- A bucket that was asked for rightly.
pub record Authorised (ops : TextOps) (u : User) (body : Body BucketRequest) (q q' : Services)
    : Type 0 where
  pub bucket : Bucket
  pub request : BucketRequest
  pub sent : q'.sent ≡ q.sent ++ bucket ∷ []
  pub manager : account_access q.db u bucket.account "manage" ≡ true
  pub logged : Memᴰ (entry u "oss.bucket.create.requested" (named bucket.name)) q'.db.audit_log
  pub asked : body ≡ json request
  pub confirmed : request.confirm_cost ≡ true
  pub is_named : ops.matches name_pattern bucket.name ≡ true
  pub in_region : ops.matches (region_pattern ops) bucket.region ≡ true

abbrev pub SentOnlyIf : (Services → Type 0) → Services → Services → Type 0
SentOnlyIf P q q' = (q'.sent ≡ q.sent) ⊎ P q'

read_account :
    (down : ℕ → Bool) (u : User) (path : Parsed) (mode : String) (q : Services)
    → (service_account down u path mode q).1 ≡ q
unfolding service_account
read_account down u (positive n) mode q = ground arith
read_account down u (negative n) mode q = refl
read_account down u malformed mode q = refl

read_body : (body : Body BucketRequest) (q : Services) → (decode body q).1 ≡ q
read_body not_json q = refl
read_body invalid q = refl
read_body trailing q = refl
read_body (json raw) q = refl

decoded :
    (body : Body BucketRequest) (raw : BucketRequest) (q : Services)
    → (decode body q).0 ≡ ok raw
    → body ≡ json raw
decoded not_json raw q h = ground arith
decoded invalid raw q h = ground arith
decoded trailing raw q h = ground arith
decoded (json r) raw q h = let same : r ≡ raw = ground arith in ap json same

-- The answer asks for nothing more and leaves the audit log longer at most.
answered_keeps :
    (down taken : Bool) (u : User) (b : Bucket) (q : Services) (e : AuditEntry)
    → Memᴰ e q.db.audit_log
    → ((answered down taken u b q).1.sent ≡ q.sent)
      × Memᴰ e (answered down taken u b q).1.db.audit_log
answered_keeps true true u b q e m = (refl, m)
answered_keeps true false u b q e m = (refl, m)
answered_keeps false true u b q e m = (refl, mem-append_left _ _ m)
answered_keeps false false u b q e m = (refl, mem-append_left _ _ m)

module _ (ops : TextOps) where
  read_bucket :
      (account : ℕ) (raw : BucketRequest) (q : Services) → (checked_bucket ops account raw q).1 ≡ q
  unfolding checked_bucket
  read_bucket account raw q = ground arith

  -- What a bucket that passes the checks is like.
  checked :
      (account : ℕ) (raw : BucketRequest) (q : Services) (b : Bucket)
      → (checked_bucket ops account raw q).0 ≡ ok b
      → (bucket_of ops account raw ≡ b)
        × (raw.confirm_cost ≡ true)
        × (ops.matches name_pattern (bucket_of ops account raw).name ≡ true)
        × (ops.matches (region_pattern ops) (bucket_of ops account raw).region ≡ true)
  unfolding checked_bucket
  checked account raw q b h = (ground arith, ground arith, ground arith, ground arith)

  ending :
      (log credentials accepted quiet : Bool) (u : User) (body : Body BucketRequest) (account : ℕ)
      (raw : BucketRequest) (b : Bucket) (q : Services)
      → account_access q.db u account "manage" ≡ true
      → body ≡ json raw
      → (checked_bucket ops account raw q).0 ≡ ok b
      → Ends (SentOnlyIf (Authorised ops u body q) q) q (
          recorded log u "oss.bucket.create.requested" b.name
            "Bucket was not submitted because audit storage is unavailable"
          >> (require credentials 400 "The selected account is not an Alibaba Cloud connection"
              >> (sending accepted b >>= λ taken. answered quiet taken u b)))
  ending true credentials accepted quiet u body account raw b q manager is_raw passed = record {
    after = inl refl;
  }
  ending false false accepted quiet u body account raw b q manager is_raw passed = record {
    after = inl refl;
  }
  ending false true accepted quiet u body account raw b q manager is_raw passed =
      let (same, confirmed, is_named, in_region) = checked account raw q b passed in
      let e = entry u "oss.bucket.create.requested" (named b.name) in
      let (sent, logged) =
        answered_keeps quiet accepted u b
          (record q { db = append_entry e q.db; sent = q.sent ++ b ∷ [] }) e
          (mem-append_right q.db.audit_log _ (Memᴰ.head refl)) in
      record {
        after = inr (record {
          bucket = b;
          request = raw;
          sent = sent;
          manager = rw (sym same) manager;
          logged = logged;
          asked = is_raw;
          confirmed = confirmed;
          is_named = rw (sym same) is_named;
          in_region = rw (sym same) in_region;
        });
      }

  create_oss_bucket-Ends :
      (down : ℕ → Bool) (credentials accepted : Bool) (u : User) (path : Parsed)
      (body : Body BucketRequest) (q : Services)
      → Ends
          (SentOnlyIf (Authorised ops u body q) q)
          q
          (create_oss_bucket ops down credentials accepted u path body)
  unfolding create_oss_bucket submit_bucket
  create_oss_bucket-Ends down credentials accepted u path body q =
      Ends-read q (inl refl) (service_account down u path "manage") _
        (read_account down u path "manage" q)
        (λ account h.
          let (manager, _) = viewed down u path "manage" q account h in
          Ends-read q (inl refl) (decode body) _ (read_body body q) (λ raw k.
            Ends-read q (inl refl) (checked_bucket ops account raw) _ (read_bucket account raw q)
              (λ b passed.
                ending (down 2) credentials accepted (down 3) u body account raw b q manager
                  (decoded body raw q k) passed)))

  -- Creating a bucket asks the provider for nothing, or once, for an account that the user may manage,
  -- by a request that confirms the cost, with a name and a region of the right form, and with the
  -- request's entry in the audit log, whatever fails and whatever the provider answers.
  pub create_oss_bucket-Authorised :
      (down : ℕ → Bool) (credentials accepted : Bool) (u : User) (path : Parsed)
      (body : Body BucketRequest) (q : Services)
      → SentOnlyIf
          (Authorised ops u body q)
          q
          (create_oss_bucket ops down credentials accepted u path body q).1
  create_oss_bucket-Authorised down credentials accepted u path body q =
      (create_oss_bucket-Ends down credentials accepted u path body q).after
