-- ===== src/Base/Maps.antt =====
-- A Go map from strings: a partial function, with assignment at a key.
use Prim.Native.String.{String}
use mathlib.Core.Path.{◌≡◌, refl}
use mathlib.Core.Logic.{◌≢◌}
use mathlib.Core.Bool.{Bool, true, false}
use mathlib.Core.Option.{Option, some}
use native.Mathlib.Omega.{arith}
use text.Mathlib.Text.{◌==◌ as str_eq}
use text.Mathlib.TextEquality.{eq_iff}
use pen_stock.Base.Tests.{if◌then◌else◌}

abbrev pub same : String → String → Bool
same a b = str_eq a b

-- `m[k] = v`
abbrev pub update {ℓ} : {V : Type ℓ} → (String → Option V) → String → V → String → Option V
update m k v j = if same k j then some v else m j

pub same_refl : (k : String) → same k k ≡ true
same_refl k = (eq_iff k k).1 refl

pub update_self {ℓ} :
    {V : Type ℓ} (m : String → Option V) (k : String) (v : V) → update m k v k ≡ some v
update_self m k v = ground (arith, eq_iff k k)

pub update_ne {ℓ} :
    {V : Type ℓ} (m : String → Option V) (k j : String) (v : V) → k ≢ j → update m k v j ≡ m j
update_ne m k j v h = ground (arith, eq_iff k j)

pub same→eq : (k j : String) → same k j ≡ true → k ≡ j
same→eq k j h = (eq_iff k j).0 h

pub same→ne : (k j : String) → same k j ≡ false → k ≢ j
same→ne k j h e = cc ((eq_iff k j).1 e)
