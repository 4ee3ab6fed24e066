-- ===== src/FeatureGate.antt =====
-- internal/featuregate/featuregate.go
use Prim.Native.Nat.{◌-◌}
use sandbox_mommy.Base.{
  ℕ, String, Bool, true, false, ◌&&◌, ◌||◌, List, [], ◌∷◌, map, ◌≡◌, refl, if◌then◌else◌,
}
use sandbox_mommy.Base.Int.{leb, eqb}
use sandbox_mommy.Text.{codes, equal_codes}

pub data FeatureGate : Type 0 where
  kubevirt dvp : FeatureGate

abbrev pub gate_string : FeatureGate → String
gate_string kubevirt = "KUBEVIRT"
gate_string dvp = "DVP"

-- `unicode.ToUpper` as far as its result is an ASCII character: besides a to z, only U+0131 and
-- U+017F have an upper case in ASCII. Every other character stays what it is.
abbrev pub to_upper_code : ℕ → ℕ
to_upper_code c =
    if leb b'a' c && leb c b'z'
    then c - 32
    else if eqb c 305
    then b'I'
    else if eqb c 383
    then b'S'
    else c

-- `strings.ToUpper(gate) == feature.String()`
abbrev pub names_gate : String → FeatureGate → Bool
names_gate gate feature = equal_codes (map to_upper_code (codes gate)) (codes (gate_string feature))

-- `FeatureGates.Enabled` and, at the gates of the command line, `Enabled`.
unfoldable pub enabled : List String → FeatureGate → Bool
enabled [] feature = false
enabled (gate ∷ gates) feature = names_gate gate feature || enabled gates feature

enabled_test : enabled ("other" ∷ "kubeVirt" ∷ []) kubevirt ≡ true
unfolding enabled
enabled_test = refl
