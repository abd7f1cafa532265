-- ===== src/Permissions/Checking.antt =====
-- `PermissionChecker` of engine/permissions.go, the interface that a handler asks, and the checker of the
-- package as one of its implementations.
use stream_relay.Prelude.{Bool, Bytes}
use stream_relay.Protocol.{Result}
use stream_relay.Permissions.Bits.{Permission}
use stream_relay.Permissions.Checker
use stream_relay.Permissions.Checker.{Checker}

pub record PermissionChecker : Type 0 where
  pub check_connect : Bytes → Bytes → Result Bool
  pub check_subscribe : Bytes → Bytes → Bytes → Result Permission
  pub check_publish : Bytes → Bytes → Result Bool
  pub get_user_permissions : Bytes → Bytes → Permission

abbrev pub default_checker : Checker → PermissionChecker
default_checker c = record {
  check_connect = Checker.check_connect c;
  check_subscribe = Checker.check_subscribe c;
  check_publish = Checker.check_publish c;
  get_user_permissions = Checker.get_user_permissions c;
}
