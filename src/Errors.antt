-- ===== src/Errors.antt =====
-- Error codes and categories: include/cocaine/errors.hpp and src/errors.cpp. A category is named by
-- its text, since two categories are compared by their names.
pub mod Registrar
pub mod Codes
use cocaine_core.Base.{
  ℕ, zero, suc, ◌+◌, ◌-◌, ◌*◌, ◌/◌, ◌%◌, ◌^◌, ◌≤◌, ◌<◌, min, String, ◌≡◌, refl, sym, ap, ◌∙◌, subst,
  ◌≢◌, ◌↔◌, ◌⊎◌, inl, inr, Bool, true, false, not, ◌&&◌, ◌||◌, Option, none, some, List, [], ◌∷◌,
  ◌++◌, map, append_assoc, append-nil, arith, ltb, leb, nat_beq, if◌then◌else◌, Bool-cases,
  Option-cases, codes, All, length, get_elem?, take, drop, replicate, find_index, find?, any, all,
  keep, is_empty, length-append, Key, ◌==◌, nat_key, string_key, list_key, list_same, list_same_iff,
  ==_refl,
}

pub data TransportError : Type 0 where
  frame_format_error hpack_error insufficient_bytes parse_error : TransportError

-- The number of the enumerator.
unfoldable pub transport_value : TransportError → ℕ
transport_value frame_format_error = 1
transport_value hpack_error = 2
transport_value insufficient_bytes = 3
transport_value parse_error = 4

unfoldable pub transport_message : ℕ → String
transport_message code =
    if nat_beq code 1
    then "message has an unexpected framing"
    else if nat_beq code 2
    then "unable to decode message metadata"
    else if nat_beq code 3
    then "insufficient bytes provided to decode the message"
    else if nat_beq code 4
    then "unable to parse the incoming data"
    else "cocaine.rpc.transport error"

abbrev pub transport_category : String
transport_category = "cocaine.rpc.transport"

pub data ProtocolError : Type 0 where
  closed_upstream : ProtocolError

-- The number of the enumerator.
unfoldable pub protocol_value : ProtocolError → ℕ
protocol_value closed_upstream = 1

unfoldable pub protocol_message : ℕ → String
protocol_message code =
    if nat_beq code 1
    then "protocol violation - upstream was already closed"
    else "cocaine.rpc.protocol error"

abbrev pub protocol_category : String
protocol_category = "cocaine.rpc.protocol"

pub data DispatchError : Type 0 where
  duplicate_slot invalid_argument not_connected revoked_channel slot_not_found unbound_dispatch
        uncaught_error :
      DispatchError

-- The number of the enumerator.
unfoldable pub dispatch_value : DispatchError → ℕ
dispatch_value duplicate_slot = 1
dispatch_value invalid_argument = 2
dispatch_value not_connected = 3
dispatch_value revoked_channel = 4
dispatch_value slot_not_found = 5
dispatch_value unbound_dispatch = 6
dispatch_value uncaught_error = 7

unfoldable pub dispatch_message : ℕ → String
dispatch_message code =
    if nat_beq code 1
    then "duplicate slot"
    else if nat_beq code 2
    then "unable to decode message arguments"
    else if nat_beq code 3
    then "session is detached"
    else if nat_beq code 4
    then "specified channel was revoked"
    else if nat_beq code 5
    then "specified slot is not bound"
    else if nat_beq code 6
    then "no dispatch has been assigned for channel"
    else if nat_beq code 7
    then "uncaught invocation exception"
    else "cocaine.rpc.dispatch error"

abbrev pub dispatch_category : String
dispatch_category = "cocaine.rpc.dispatch"

pub data RepositoryError : Type 0 where
  component_not_found duplicate_component initialization_error invalid_interface dlopen_error
        version_mismatch component_not_registered :
      RepositoryError

-- The number of the enumerator.
unfoldable pub repository_value : RepositoryError → ℕ
repository_value component_not_found = 1
repository_value duplicate_component = 2
repository_value initialization_error = 3
repository_value invalid_interface = 4
repository_value dlopen_error = 5
repository_value version_mismatch = 6
repository_value component_not_registered = 7

unfoldable pub repository_message : ℕ → String
repository_message code =
    if nat_beq code 1
    then "component is not available"
    else if nat_beq code 2
    then "duplicate component"
    else if nat_beq code 3
    then "component has failed to intialize"
    else if nat_beq code 4
    then "component has an invalid interface"
    else if nat_beq code 5
    then "internal libltdl error"
    else if nat_beq code 6
    then "component version requirements are not met"
    else if nat_beq code 7
    then "component has not been registered in repository"
    else "cocaine.repository error"

abbrev pub repository_category : String
repository_category = "cocaine.plugins"

pub data SecurityError : Type 0 where
  token_not_found unauthorized permission_denied permissions_changed invalid_acl_framing :
      SecurityError

-- The number of the enumerator.
unfoldable pub security_value : SecurityError → ℕ
security_value token_not_found = 1
security_value unauthorized = 2
security_value permission_denied = 3
security_value permissions_changed = 4
security_value invalid_acl_framing = 5

-- `default_message` is `format("{} - {}", name(), code)`.
unfoldable pub security_message : (ℕ → String) → ℕ → String
security_message default_message code =
    if nat_beq code 1
    then "specified token is not available"
    else if nat_beq code 2
    then "unauthorized"
    else if nat_beq code 3
    then "permission denied"
    else if nat_beq code 4
    then "permissions changed"
    else if nat_beq code 5
    then "invalid ACL framing"
    else default_message code

abbrev pub security_category : String
security_category = "cocaine security"

pub data LocatorError : Type 0 where
  service_not_available routing_storage_error missing_version_error gateway_duplicate_service
        gateway_missing_service :
      LocatorError

-- The number of the enumerator.
unfoldable pub locator_value : LocatorError → ℕ
locator_value service_not_available = 1
locator_value routing_storage_error = 2
locator_value missing_version_error = 3
locator_value gateway_duplicate_service = 4
locator_value gateway_missing_service = 5

unfoldable pub locator_message : ℕ → String
locator_message code =
    if nat_beq code 1
    then "service is not available"
    else if nat_beq code 2
    then "routing storage is unavailable"
    else if nat_beq code 3
    then "missing protocol version"
    else if nat_beq code 4
    then "duplicate service provided to gateway"
    else if nat_beq code 5
    then "service is missing in gateway"
    else "cocaine.service.locator error"

abbrev pub locator_category : String
locator_category = "cocaine.service.locator"

pub data UnicornError : Type 0 where
  child_not_allowed invalid_type invalid_value unknown_error invalid_node_name invalid_path
        version_not_allowed no_node node_exists connection_loss backend_internal_error :
      UnicornError

-- The number of the enumerator.
unfoldable pub unicorn_value : UnicornError → ℕ
unicorn_value child_not_allowed = 1
unicorn_value invalid_type = 2
unicorn_value invalid_value = 3
unicorn_value unknown_error = 4
unicorn_value invalid_node_name = 5
unicorn_value invalid_path = 6
unicorn_value version_not_allowed = 7
unicorn_value no_node = 8
unicorn_value node_exists = 9
unicorn_value connection_loss = 10
unicorn_value backend_internal_error = 11

-- `default_message` is `format("{} - {}", name(), code)`.
unfoldable pub unicorn_message : (ℕ → String) → ℕ → String
unicorn_message default_message code =
    if nat_beq code 1
    then "can not get value of a node with childs"
    else if nat_beq code 2
    then "invalid type of value stored for requested operation"
    else if nat_beq code 3
    then "could not unserialize value stored in zookeeper"
    else if nat_beq code 4
    then "unknown zookeeper error"
    else if nat_beq code 5
    then "invalid node name specified"
    else if nat_beq code 6
    then "invalid path specified"
    else if nat_beq code 7
    then "specified version is not allowed for command"
    else if nat_beq code 8
    then "node not exists"
    else if nat_beq code 9
    then "node already exists"
    else if nat_beq code 10
    then "connection has been lost"
    else if nat_beq code 11
    then "internal backend error"
    else default_message code

abbrev pub unicorn_category : String
unicorn_category = "cocaine.plugins.unicorn"

abbrev pub unknown_category : String
unknown_category = "unknown category"
