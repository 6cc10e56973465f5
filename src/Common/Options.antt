-- ===== src/Common/Options.antt =====
-- Values that may be missing, with what stands in for them.
use Prim.Native.String.{String}
use mathlib.Core.Option.{Option, none, some}

abbrev pub given {ℓ} : {A : Type ℓ} → Option A → A → A
given none a = a
given (some b) a = b

abbrev pub or_empty : Option String → String
or_empty none = ""
or_empty (some s) = s
