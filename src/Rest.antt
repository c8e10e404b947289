-- ===== src/Rest.antt =====
-- sdks/cpp/connections/REST: the methods of include/interface/ISocketReader.h with their names, and what
-- a `SocketReader` keeps of a request.
pub mod Paths
pub mod Headers
pub mod Reader
pub mod Routes
pub mod Bodies
pub mod Writer
pub mod Events
pub mod Answers
pub mod Controllers
pub mod Languages
pub mod Assets
pub mod Agreement
pub mod Streaming
pub mod Collecting
pub mod Collected
pub mod Infos
pub mod Connecting
pub mod Pushes
pub mod Informed
pub mod Service
use catena.Base.{ℕ, Bool, true, false, List, [], ◌∷◌, if◌then◌else◌}
use catena.Base.Text.{Text, txt, eqb}
use catena.Device.{DetailLevel}

-- `RESTMethod`
pub data Method : Type 0 where
  no_method get post put patch delete head options : Method

-- `RESTMethodMap`
unfoldable pub method_name : Method → Text
method_name no_method = txt "NONE"
method_name get = txt "GET"
method_name post = txt "POST"
method_name put = txt "PUT"
method_name patch = txt "PATCH"
method_name delete = txt "DELETE"
method_name head = txt "HEAD"
method_name options = txt "OPTIONS"

abbrev pub all_methods : List Method
all_methods = no_method ∷ get ∷ post ∷ put ∷ patch ∷ delete ∷ head ∷ options ∷ []

-- The reverse map; `method_` is left at `Method_NONE` where it has no such name.
unfoldable pub find_method : Text → List Method → Method
unfolding method_name
find_method name [] = no_method
find_method name (m ∷ ms) = if eqb (method_name m) name then m else find_method name ms

abbrev pub eq_method : Method → Method → Bool
eq_method no_method no_method = true
eq_method get get = true
eq_method post post = true
eq_method put put = true
eq_method patch patch = true
eq_method delete delete = true
eq_method head head = true
eq_method options options = true
eq_method _ _ = false

-- What the path says.
pub record Target : Type 0 where
  pub slot : ℕ
  pub endpoint : Text
  pub fqoid : Text
  pub stream : Bool

-- What the headers say; `contentLength` and `hasContentType` are variables of `read`.
pub record Heading : Type 0 where
  pub jws_token : Text
  pub origin : Text
  pub detail_level : DetailLevel
  pub request_start : ℕ
  pub content_length : ℕ
  pub has_content_type : Bool

pub record Request : Type 0 where
  pub method : Method
  pub target : Target
  pub fields : List (Text × Text)
  pub heading : Heading
  pub json_body : Text
  pub request_received : ℕ
