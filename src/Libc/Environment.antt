-- ===== src/Libc/Environment.antt =====
-- The environment of the process, and how the sources read it.
use fortai.Prelude.{Bool, true, false, Option, none, some, [], ◌∷◌, if◌then◌else◌}
use fortai.Libc.{Bytes}

-- `getenv`
abbrev pub Env : Type 0
Env = Bytes → Option Bytes

-- `value != NULL && value[0] != '\0'`
abbrev pub is_set : Option Bytes → Bool
is_set none = false
is_set (some []) = false
is_set (some (c ∷ cs)) = true

-- the string of a variable that is set, and "" else
abbrev pub text : Option Bytes → Bytes
text none = []
text (some s) = s

-- `if (value == NULL || value[0] == '\0') value = next`
abbrev pub or_else : Option Bytes → Option Bytes → Option Bytes
or_else value next = if is_set value then value else next
