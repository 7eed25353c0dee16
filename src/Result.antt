-- ===== src/Result.antt =====
-- Python exceptions as values. `raise` carries `str(exc)`, which is all that the program reads of an
-- exception.
use dhava.Common.{String, ◌<>◌, Option, none, some}

pub data Result {ℓ} (A : Type ℓ) : Type ℓ where
  ok : A → Result A
  raise : String → Result A

infixl 5 ◌>>=◌ ◌>>◌
abbrev pub ◌>>=◌ {ℓ κ} : {A : Type ℓ} {B : Type κ} → Result A → (A → Result B) → Result B
ok a >>= f = f a
raise e >>= f = raise e

abbrev pub ◌>>◌ {ℓ κ} : {A : Type ℓ} {B : Type κ} → Result A → Result B → Result B
m >> k = m >>= λ _. k

-- `d[key]`: a missing key is a `KeyError`, whose text is the quoted key.
unfoldable pub item {ℓ} : {A : Type ℓ} → String → Option A → Result A
item key none = raise ("'" <> key <> "'")
item key (some v) = ok v

-- `d.get(key, default)`
abbrev pub or_default {ℓ} : {A : Type ℓ} → Option A → A → A
or_default none d = d
or_default (some v) d = v
