-- ===== src/Identity.antt =====
-- identity.go: the references and the processing block that every envelope carries. SHA-256 is a
-- parameter: nothing here depends on what it computes.
use Prim.Native.Nat.{ℕ, ◌/◌, ◌%◌}
use go_collector.Base.{List, [], ◌∷◌, ◌++◌, ◌+◌, ◌-◌, take, if◌then◌else◌, ltb}
use go_collector.Base.Bytes.{Bytes, codes}
use go_collector.Config.{Config}

pub record ProcessingIdentity : Type 0 where
  pub message_id : Bytes
  pub batch_id : Bytes
  pub organisation_id : Bytes
  pub project_id : Bytes
  pub application_id : Bytes

pub record OrganisationRef : Type 0 where
  pub organisation_id : Bytes

pub record ProjectRef : Type 0 where
  pub organisation : OrganisationRef
  pub project_id : Bytes

pub record ApplicationRef : Type 0 where
  pub application_id : Bytes
  pub project : ProjectRef

abbrev pub organisation_ref : Config → OrganisationRef
organisation_ref c = record { organisation_id = c.organisation }

abbrev pub application_ref : Config → ApplicationRef
application_ref c = record {
  application_id = c.application;
  project = record { organisation = organisation_ref c; project_id = c.project };
}

hex_digit : ℕ → ℕ
hex_digit n = if ltb n 10 then b'0' + n else b'a' + (n - 10)

-- encoding/hex's EncodeToString
hex_encode : Bytes → Bytes
hex_encode [] = []
hex_encode (b ∷ bs) = hex_digit (b / 16) ∷ hex_digit (b % 16) ∷ hex_encode bs

-- What is written to the hash: every part, with a zero byte behind it.
hashed : List Bytes → Bytes
hashed [] = []
hashed (p ∷ ps) = p ++ (0 ∷ hashed ps)

module _ (sha256 : Bytes → Bytes) where
  pub deterministic_id : List Bytes → Bytes
  deterministic_id parts = take 32 (hex_encode (sha256 (hashed parts)))

  pub processing : Config → Bytes → ProcessingIdentity
  processing c seed =
      let batch = deterministic_id (codes "batch" ∷ c.organisation ∷ c.application ∷ seed ∷ []) in
      record {
        message_id =
            deterministic_id (codes "message" ∷ c.organisation ∷ c.application ∷ seed ∷ batch ∷ []);
        batch_id = batch;
        organisation_id = c.organisation;
        project_id = c.project;
        application_id = c.application;
      }
