-- ===== src/Text.antt =====
-- Go's `strings`, on the native `String`, as far as the services take strings apart.
pub use text.Mathlib.Text.{◌==◌}
use Prim.Native.Char.{code}
use ticketbus.Base.{
  Bool, true, false, String, Option, none, some, if◌then◌else◌, ◌≡◌, refl, arith, ==-self,
}
use ticketbus.Base

-- `strings.SplitN(s, "@", 2)[0]`
unfoldable pub before_at : String → String
before_at String.[] = String.[]
before_at (String.◌∷◌ c s) =
    let rest = before_at s in if Base.◌==◌ (code c) b'@' then String.[] else String.◌∷◌ c rest

-- `strings.CutPrefix(s, prefix)`
unfoldable pub cut_prefix : String → String → Option String
cut_prefix String.[] s = some s
cut_prefix (String.◌∷◌ c p) String.[] = none
cut_prefix (String.◌∷◌ c p) (String.◌∷◌ d s) =
    let rest = cut_prefix p s in if Base.◌==◌ (code c) (code d) then rest else none

abbrev pub is_empty : String → Bool
is_empty String.[] = true
is_empty (String.◌∷◌ _ _) = false
