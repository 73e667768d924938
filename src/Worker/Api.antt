-- ===== src/Worker/Api.antt =====
-- What the worker uses of code that is not its own: the generated messages of pkg/api with
-- proto.Equal, the arithmetic of float64, and fmt and strconv on int64.
use cirrus_cli.Prelude.{String, Bool, Option, List}

-- the Type of an api.Isolation that persistentworker.New distinguishes; none_type is also that of a nil
-- *api.Isolation
pub data IsolationType : Type 0 where
  none_type parallels_type container_type tart_type vetu_type other_type : IsolationType

pub record Api : Type 1 where
  -- float64 with its zero, +, - and <
  pub Amount : Type 0
  pub nothing : Amount
  pub add : Amount → Amount → Amount
  pub subtract : Amount → Amount → Amount
  pub less : Amount → Amount → Bool
  -- int64 with fmt.Sprintf("%d") and strconv.ParseInt
  pub Number : Type 0
  pub decimal : Number → String
  pub parse_int : String → Option Number
  -- api.Isolation and api.StandbyInstanceParameters with proto.Equal
  pub Isolation : Type 0
  pub isolation_equal : Isolation → Isolation → Bool
  pub type_of : Isolation → IsolationType
  pub Parameters : Type 0
  pub parameters_equal : Parameters → Parameters → Bool
  pub isolation_of : Parameters → Isolation
  pub resources_of : Parameters → List (String × Amount)
