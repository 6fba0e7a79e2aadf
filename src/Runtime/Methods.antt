-- ===== src/Runtime/Methods.antt =====
-- internal/runtime/proto.go: the methods, and the tier of each.
use ioc.Base.{Bool, List, [], ◌∷◌, Text, bytes, any, text_eq, if◌then◌else◌}

pub data Tier : Type 0 where
  tier_read tier_write tier_control : Tier

abbrev pub shutdown : Text
shutdown = bytes "shutdown"

abbrev pub stats : Text
stats = bytes "stats"

abbrev pub rotate_token : Text
rotate_token = bytes "rotate_token"

abbrev pub mint_read_token : Text
mint_read_token = bytes "mint_read_token"

abbrev pub control_methods : List Text
control_methods = shutdown ∷ stats ∷ rotate_token ∷ mint_read_token ∷ []

abbrev pub write_methods : List Text
write_methods =
    bytes "create_scope"
    ∷ bytes "push"
    ∷ bytes "publish"
    ∷ bytes "fork"
    ∷ bytes "consolidate"
    ∷ bytes "crossversion"
    ∷ bytes "rollup"
    ∷ bytes "delete_artifact"
    ∷ bytes "delete_scope"
    ∷ bytes "set_config"
    ∷ bytes "supersede"
    ∷ bytes "relate"
    ∷ []

-- a lookup in one of the two maps
abbrev pub is_one_of : List Text → Text → Bool
is_one_of methods method = any (λ x. text_eq method x) methods

unfoldable pub tier_of : Text → Tier
tier_of method =
    if is_one_of control_methods method
    then tier_control
    else if is_one_of write_methods method
    then tier_write
    else tier_read
