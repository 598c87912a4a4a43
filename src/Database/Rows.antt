-- ===== src/Database/Rows.antt =====
-- The tables of server/migrations that the stores read and write, a record for each row, and the
-- status words of the packages; Records has those of the administrators' records. `unknown` stands for any word that is none of the constants.
mod Records
pub use Records.*
use xmdm.Common.{List, [], Option, String}
use xmdm.Common.Json.{Json}

-- server/internal/device/model.go
pub data DeviceStatus : Type 0 where
  pending enrolled active locked suspended retired wiped unknown : DeviceStatus

-- server/internal/commands/model.go
pub data CommandStatus : Type 0 where
  queued sent delivered acked failed expired unknown : CommandStatus

-- server/internal/enrollment/model.go
pub data TokenStatus : Type 0 where
  issued consumed expired revoked unknown : TokenStatus

pub record DeviceRow : Type 0 where
  pub id : String
  pub tenant_id : String
  pub display_name : String
  pub secret_hash : String
  pub status : DeviceStatus
  pub policy_id : Option String
  pub bootstrap_extras : Option Json
  pub created_at : Time
  pub updated_at : Time
  pub deleted_at : Option Time

pub record DeviceGroupRow : Type 0 where
  pub tenant_id : String
  pub device_id : String
  pub group_id : String
  pub created_at : Time

pub record CommandRow : Type 0 where
  pub id : String
  pub tenant_id : String
  pub device_id : String
  pub type : String
  pub payload : Json
  pub status : CommandStatus
  pub expires_at : Option Time
  pub acked_at : Option Time
  pub result : Json
  pub created_at : Time
  pub updated_at : Time

pub record TokenRow : Type 0 where
  pub id : String
  pub tenant_id : String
  pub token_hash : String
  pub status : TokenStatus
  pub expires_at : Time
  pub consumed_at : Option Time
  pub revoked_at : Option Time
  pub created_at : Time
  pub updated_at : Time

pub record Db : Type 0 where
  pub devices : List DeviceRow
  pub groups : List GroupRow
  pub device_groups : List DeviceGroupRow
  pub commands : List CommandRow
  pub tokens : List TokenRow
  pub catalog : Catalog

abbrev pub empty_catalog : Catalog
empty_catalog = record {
  policies = [];
  policy_apps = [];
  policy_certificates = [];
  policy_managed_files = [];
  apps = [];
  app_versions = [];
  artifacts = [];
  files = [];
  certificates = [];
  managed_files = [];
  roles = [];
  users = [];
}

abbrev pub empty_db : Db
empty_db = record {
  devices = [];
  groups = [];
  device_groups = [];
  commands = [];
  tokens = [];
  catalog = empty_catalog;
}
