-- ===== src/Models.antt =====
-- models/models.go, models/helpers.go, and the messages and the enum of models/locket.pb.go.
-- A pointer to a message is an `Option`; the generated getters accept nil.
pub mod Types
pub mod Wire
use locket.Prelude.{ℕ, String, Bool, true, false, Option, none, some, ◌==◌, if◌then◌else◌}
use locket.Prelude.Int64.{ℤ, pos, eq_ℤ}

-- An int32 on the wire: any value, of which three have a name.
abbrev pub TypeCode : Type 0
TypeCode = ℤ

abbrev pub unknown_code : TypeCode
unknown_code = pos 0

abbrev pub lock_code : TypeCode
lock_code = pos 1

abbrev pub presence_code : TypeCode
presence_code = pos 2

unfoldable pub type_code_name : TypeCode → Option String
type_code_name code =
    if eq_ℤ code unknown_code
    then some "UNKNOWN"
    else if eq_ℤ code lock_code
    then some "LOCK"
    else if eq_ℤ code presence_code
    then some "PRESENCE"
    else none

abbrev pub presence_type : String
presence_type = "presence"

abbrev pub lock_type : String
lock_type = "lock"

-- The errors that the program compares by identity: its own, two of the SQL helpers, and any other
-- (of the driver, of the guid provider, of gRPC), by a number.
pub data Error : Type 0 where
  lock_collision invalid_ttl invalid_owner resource_not_found invalid_type : Error
  sql_resource_not_found unrecoverable_error : Error
  driver : ℕ → Error

pub record Resource : Type 0 where
  pub key : String
  pub owner : String
  pub value : String
  pub type : String
  pub type_code : TypeCode

pub record LockRequest : Type 0 where
  pub resource : Option Resource
  pub ttl_in_seconds : ℤ

pub record ReleaseRequest : Type 0 where
  pub resource : Option Resource

pub record FetchRequest : Type 0 where
  pub key : String

pub record FetchAllRequest : Type 0 where
  pub type : String
  pub type_code : TypeCode

abbrev pub get_type_of : Option Resource → String
get_type_of none = ""
get_type_of (some r) = r.type

abbrev pub get_type_code_of : Option Resource → TypeCode
get_type_code_of none = unknown_code
get_type_code_of (some r) = r.type_code

unfoldable pub get_type_code : String → TypeCode
get_type_code type =
    if type == lock_type
    then lock_code
    else if type == presence_type
    then presence_code
    else unknown_code

unfoldable pub get_type : Resource → String
get_type r =
    if eq_ℤ r.type_code lock_code
    then lock_type
    else if eq_ℤ r.type_code presence_code
    then presence_type
    else r.type

-- The copy of a resource in which the type and the type code agree.
unfoldable pub get_resource : Resource → Resource
unfolding get_type get_type_code
get_resource r = record r {
  type = if eq_ℤ r.type_code unknown_code then r.type else get_type r;
  type_code = if eq_ℤ r.type_code unknown_code then get_type_code r.type else r.type_code;
}
