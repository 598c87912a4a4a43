-- ===== src/Database/Rows/Records.antt =====
-- The tables of server/migrations with what an administrator keeps: groups, policies and what they
-- assign, apps with their versions, files, certificates, users and roles.
use xmdm.Common.{ℕ, List, Option, String, Bool}
use xmdm.Common.Int.{ℤ}
use xmdm.Common.Json.{Json}

-- A time is a number of nanoseconds; the zero time is 0.
abbrev pub Time : Type 0
Time = ℕ

-- The status words of these packages; `unknown` stands for any other word.
pub data RecordStatus : Type 0 where
  active retired disabled unknown : RecordStatus

-- `RecordBase` of the packages. Those of files and artifacts do not show the time of creation.
pub record RecordBase : Type 0 where
  pub id : String
  pub tenant_id : String
  pub status : RecordStatus
  pub created_at : Time
  pub updated_at : Time
  pub deleted_at : Option Time

pub record GroupRow : Type 0 where
  pub base : RecordBase
  pub name : String

pub record PolicyRow : Type 0 where
  pub base : RecordBase
  pub name : String
  pub version : ℕ
  pub kiosk_mode : Bool
  pub kiosk_app_package : String
  pub restrictions : Json

-- A row of policy_apps, policy_certificates or policy_managed_files: a policy and what it assigns.
pub record BindingRow : Type 0 where
  pub base : RecordBase
  pub policy_id : String
  pub item_id : String

pub record AppRow : Type 0 where
  pub base : RecordBase
  pub package_name : String
  pub name : String
  pub system_owned : Bool

-- server/internal/apps/model.go
pub data VersionStatus : Type 0 where
  uploaded published : VersionStatus

pub record VersionRow : Type 0 where
  pub id : String
  pub tenant_id : String
  pub app_id : String
  pub status : VersionStatus
  pub version_name : String
  pub version_code : ℤ
  pub artifact_id : Option String
  pub checksum : String
  pub published_at : Option Time
  pub created_at : Time

pub record ArtifactRow : Type 0 where
  pub base : RecordBase
  pub storage_key : String
  pub checksum : String
  pub size_bytes : ℤ
  pub mime_type : String

pub record FileRow : Type 0 where
  pub base : RecordBase
  pub name : String
  pub artifact_id : String
  pub checksum : String
  pub mime_type : String

pub record CertificateRow : Type 0 where
  pub base : RecordBase
  pub name : String
  pub artifact_id : String
  pub checksum : String

pub record ManagedFileRow : Type 0 where
  pub base : RecordBase
  pub file_id : String
  pub path : String
  pub replace_variables : Bool

pub record RoleRow : Type 0 where
  pub base : RecordBase
  pub name : String
  pub permissions : List String

pub record UserRow : Type 0 where
  pub base : RecordBase
  pub email : String
  pub password_hash : String
  pub role_id : String

pub record Catalog : Type 0 where
  pub policies : List PolicyRow
  pub policy_apps : List BindingRow
  pub policy_certificates : List BindingRow
  pub policy_managed_files : List BindingRow
  pub apps : List AppRow
  pub app_versions : List VersionRow
  pub artifacts : List ArtifactRow
  pub files : List FileRow
  pub certificates : List CertificateRow
  pub managed_files : List ManagedFileRow
  pub roles : List RoleRow
  pub users : List UserRow
