-- ===== src/Messages/TypeSupports.antt =====
-- The type supports of messages, requests and responses: rmw_dps_cpp/src/type_support_common.cpp,
-- rmw_dps_cpp/src/client_service_common.cpp with its header, and ServiceTypeSupport_impl.hpp and
-- MessageTypeSupport_impl.hpp of rmw_dps_cpp/include/rmw_dps_cpp. An identifier is `none` if it is
-- neither that of C nor that of C++, and a null pointer is `none`.
use rmw_dps.Prelude.{Bool, true, false, ◌||◌, Option, none, some, if◌then◌else◌}
use rmw_dps.Messages.Members.{Language, introspection_c, introspection_cpp, Members}

-- ServiceMembers
pub record ServiceMembers : Type 0 where
  pub request_members : Members
  pub response_members : Members

-- A TypeSupport object: its language, and the members it is constructed with.
pub record TypeSupport : Type 0 where
  pub language : Language
  pub members : Members

unfoldable pub using_introspection_c_typesupport : Option Language → Bool
using_introspection_c_typesupport none = false
using_introspection_c_typesupport (some introspection_c) = true
using_introspection_c_typesupport (some introspection_cpp) = false

unfoldable pub using_introspection_cpp_typesupport : Option Language → Bool
using_introspection_cpp_typesupport none = false
using_introspection_cpp_typesupport (some introspection_c) = false
using_introspection_cpp_typesupport (some introspection_cpp) = true

-- _create_message_type_support
unfoldable pub create_message_type_support : Members → Option Language → Option TypeSupport
unfolding using_introspection_c_typesupport using_introspection_cpp_typesupport
create_message_type_support members id =
    if using_introspection_c_typesupport id
    then some (record { language = introspection_c; members = members })
    else if using_introspection_cpp_typesupport id
    then some (record { language = introspection_cpp; members = members })
    else none

-- _create_request_type_support, with the constructor of RequestTypeSupport
unfoldable pub create_request_type_support : ServiceMembers → Option Language → Option TypeSupport
unfolding using_introspection_c_typesupport using_introspection_cpp_typesupport
create_request_type_support service id =
    if using_introspection_c_typesupport id
    then some (record { language = introspection_c; members = service.request_members })
    else if using_introspection_cpp_typesupport id
    then some (record { language = introspection_cpp; members = service.request_members })
    else none

-- _create_response_type_support, with the constructor of ResponseTypeSupport
unfoldable pub create_response_type_support : ServiceMembers → Option Language → Option TypeSupport
unfolding using_introspection_c_typesupport using_introspection_cpp_typesupport
create_response_type_support service id =
    if using_introspection_c_typesupport id
    then some (record { language = introspection_c; members = service.response_members })
    else if using_introspection_cpp_typesupport id
    then some (record { language = introspection_cpp; members = service.response_members })
    else none

-- _register_type: whether there is no error message. It does nothing else.
unfoldable pub register_type : Option Language → Bool
unfolding using_introspection_c_typesupport using_introspection_cpp_typesupport
register_type id = using_introspection_c_typesupport id || using_introspection_cpp_typesupport id

-- _unregister_type and _delete_typesupport: what is left of the object that the pointer points to.
unfoldable pub unregister_type : Option TypeSupport → Option Language → Option TypeSupport
unfolding using_introspection_c_typesupport using_introspection_cpp_typesupport
unregister_type support id =
    if using_introspection_c_typesupport id
    then none
    else if using_introspection_cpp_typesupport id
    then none
    else support

unfoldable pub delete_typesupport : Option TypeSupport → Option Language → Option TypeSupport
unfolding using_introspection_c_typesupport using_introspection_cpp_typesupport
delete_typesupport support id =
    if using_introspection_c_typesupport id
    then none
    else if using_introspection_cpp_typesupport id
    then none
    else support

-- _get_registered_type
unfoldable pub get_registered_type : Bool
get_registered_type = false

-- get_request_ptr of one language, and that of both
unfoldable pub request_ptr_of : Option ServiceMembers → Option Members
request_ptr_of none = none
request_ptr_of (some service) = some service.request_members

unfoldable pub get_request_ptr : Option ServiceMembers → Option Language → Option Members
unfolding using_introspection_c_typesupport using_introspection_cpp_typesupport request_ptr_of
get_request_ptr service id =
    if using_introspection_c_typesupport id
    then request_ptr_of service
    else if using_introspection_cpp_typesupport id
    then request_ptr_of service
    else none

-- get_response_ptr of one language, and that of both
unfoldable pub response_ptr_of : Option ServiceMembers → Option Members
response_ptr_of none = none
response_ptr_of (some service) = some service.response_members

unfoldable pub get_response_ptr : Option ServiceMembers → Option Language → Option Members
unfolding using_introspection_c_typesupport using_introspection_cpp_typesupport response_ptr_of
get_response_ptr service id =
    if using_introspection_c_typesupport id
    then response_ptr_of service
    else if using_introspection_cpp_typesupport id
    then response_ptr_of service
    else none
