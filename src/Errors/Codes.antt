-- ===== src/Errors/Codes.antt =====
-- std::error_code as a category and a number, and the `make_error_code` functions of src/errors.cpp.
use cocaine_core.Base.{ℕ, String, nat_key, string_key, list_key}
use cocaine_core.Errors.{
  TransportError, ProtocolError, DispatchError, RepositoryError, SecurityError, LocatorError,
  UnicornError, transport_value, protocol_value, dispatch_value, repository_value, security_value,
  locator_value, unicorn_value, transport_category, protocol_category, dispatch_category,
  repository_category, security_category, locator_category, unicorn_category,
}

pub record Code : Type 0 where
  pub category : String
  pub value : ℕ

-- std::error_code()
abbrev pub no_error : Code
no_error = record { category = "system"; value = 0 }

-- error_t::kInvalidArgumentErrorCode: std::errc::invalid_argument is EINVAL.
abbrev pub invalid_argument_code : Code
invalid_argument_code = record { category = "generic"; value = 22 }

unfoldable pub transport_code : TransportError → Code
transport_code e = record { category = transport_category; value = transport_value e }

unfoldable pub protocol_code : ProtocolError → Code
protocol_code e = record { category = protocol_category; value = protocol_value e }

unfoldable pub dispatch_code : DispatchError → Code
dispatch_code e = record { category = dispatch_category; value = dispatch_value e }

unfoldable pub repository_code : RepositoryError → Code
repository_code e = record { category = repository_category; value = repository_value e }

unfoldable pub security_code : SecurityError → Code
security_code e = record { category = security_category; value = security_value e }

unfoldable pub locator_code : LocatorError → Code
locator_code e = record { category = locator_category; value = locator_value e }

unfoldable pub unicorn_code : UnicornError → Code
unicorn_code e = record { category = unicorn_category; value = unicorn_value e }

-- A C++ exception: a std::system_error with its code, or another std::exception.
pub data Failure : Type 0 where
  system : Code → Failure
  standard : Failure
