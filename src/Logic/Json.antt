-- ===== src/Logic/Json.antt =====
-- What the handlers take from nlohmann::json: an abstract type of parsed values with the accesses
-- that the source makes, and the text of the objects that it builds.
use coroutine_server.Prelude.{Bytes, Bool, Option, List, ℤ, String}
use coroutine_server.Logic.Monad.{Result}

pub data Scalar : Type 0 where
  num : ℤ → Scalar
  text : Bytes → Scalar

-- The values that the source assigns to a key of a reply: a number or a text, an array of numbers,
-- or an array of objects.
pub data Value : Type 0 where
  one : Scalar → Value
  numbers : List ℤ → Value
  objects : List (List (String × Scalar)) → Value

abbrev pub Fields : Type 0
Fields = List (String × Value)

pub record JsonLib (Json : Type 0) : Type 0 where
  -- `json::parse(data, nullptr, false)`; `none` is a discarded value.
  pub parse : Bytes → Option Json
  -- `root.contains(key)`
  pub contains : Json → String → Bool
  -- `root[key].get<std::string>()`
  pub get_string : Json → String → Result Bytes
  -- `root[key].get<int64_t>()`
  pub get_int64 : Json → String → Result ℤ
  -- `root[key].get<int>()`
  pub get_int : Json → String → Result ℤ
  -- `root[key] = text`
  pub set_string : Json → String → Bytes → Result Json
  -- `root.dump()` of a parsed value.
  pub dump_json : Json → Result Bytes
  -- `dump()` of an object with these keys and values; it throws on text that is not UTF-8.
  pub dump : Fields → Result Bytes
