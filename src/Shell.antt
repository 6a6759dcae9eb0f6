-- ===== src/Shell.antt =====
-- main.py, core/config.py and api/v1/health.py: the origins that CORS allows, and the health check.
use Prim.Native.Char.{code}
use agentdesk_ai.Base.{
  Bool, true, false, not, List, [], ◌∷◌, map, select, strip, String, ◌<>◌, str_eq, ◌==◌,
  if◌then◌else◌,
}
use agentdesk_ai.Session.{Settings}

-- The text with a character more in its first part.
abbrev put_in_first : String → List String → List String
put_in_first c [] = c ∷ []
put_in_first c (part ∷ parts) = (c <> part) ∷ parts

-- `text.split(",")`
unfoldable pub split_commas : String → List String
split_commas String.[] = "" ∷ []
split_commas (String.◌∷◌ c s) =
    let parts = split_commas s in
    if code c == b',' then "" ∷ parts else put_in_first (String.◌∷◌ c "") parts

-- `Settings.cors_origins_list`
unfoldable pub cors_origins_list : {F : Type 0} → Settings F → List String
unfolding split_commas strip
cors_origins_list settings =
    map strip (select (λ o. not (str_eq (strip o) "")) (split_commas settings.cors_origins))

-- The body of GET /health: whether `SELECT 1` ran.
unfoldable pub health : Bool → List (String × String)
health true = ("status", "ok") ∷ ("database", "ok") ∷ []
health false = ("status", "ok") ∷ ("database", "error") ∷ []
