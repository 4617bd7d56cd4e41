-- ===== src/Base/Text.antt =====
-- Texts: the code points of a text, and the membership tests that the program makes on them.
use Prim.Native.Nat.{ℕ, suc}
use Prim.Native.Char.{code}
use Prim.Native.String.{String}
use mathlib.Core.Bool.{Bool, true, false, ◌&&◌, ◌||◌}
use mathlib.Core.List.{List, [], ◌∷◌}
use text.Mathlib.Text.{◌==◌}
use owasp_llm_lab_setup_guid.Base.Tests.{leb, ltb, nat_eq}

-- The code points of a text.
abbrev pub codes : String → List ℕ
codes String.[] = []
codes (String.◌∷◌ c s) = code c ∷ codes s

-- Python's `len` of a list or of a text given by its code points.
abbrev pub length {ℓ} : {A : Type ℓ} → List A → ℕ
length [] = 0
length (x ∷ xs) = suc (length xs)

unfoldable pub all {ℓ} : {A : Type ℓ} → (A → Bool) → List A → Bool
all p [] = true
all p (x ∷ xs) = p x && all p xs

unfoldable pub any {ℓ} : {A : Type ℓ} → (A → Bool) → List A → Bool
any p [] = false
any p (x ∷ xs) = p x || any p xs

-- `s in names`, over texts.
unfoldable pub text_in : String → List String → Bool
text_in s [] = false
text_in s (x ∷ xs) = s == x || text_in s xs

-- `[0-9a-f]`
unfoldable pub is_hex : ℕ → Bool
is_hex c = (leb b'0' c && leb c b'9') || (leb b'a' c && leb c b'f')

-- `re.fullmatch(r"[0-9a-f]{64}", s)`
unfoldable pub is_sha256_hex : String → Bool
unfolding is_hex all
is_sha256_hex s = all is_hex (codes s) && nat_eq (length (codes s)) 64

-- `s.isascii()`
unfoldable pub is_ascii : String → Bool
unfolding all
is_ascii s = all (λ c. ltb c 128) (codes s)

-- A character that `str.strip` takes off, of those up to U+3000.
unfoldable pub is_space : ℕ → Bool
is_space c =
    (leb 9 c && leb c 13)
    || (leb 28 c && leb c 32)
    || nat_eq c 0x85
    || nat_eq c 0xa0
    || nat_eq c 0x1680
    || (leb 0x2000 c && leb c 0x200a)
    || nat_eq c 0x2028
    || nat_eq c 0x2029
    || nat_eq c 0x202f
    || nat_eq c 0x205f
    || nat_eq c 0x3000

-- `not s.strip()`
unfoldable pub is_blank : String → Bool
unfolding is_space all
is_blank s = all is_space (codes s)

-- The shape `8-4-4-4-12` of hexadecimal digits, read group by group.
hex_groups : List ℕ → ℕ → List ℕ → Bool
hex_groups groups Prim.Native.Nat.zero [] = elim groups [ [] ↦ true | g ∷ gs ↦ false ]
hex_groups groups (suc n) [] = false
hex_groups [] Prim.Native.Nat.zero (c ∷ cs) = false
hex_groups (g ∷ gs) Prim.Native.Nat.zero (c ∷ cs) = nat_eq c b'-' && hex_groups gs g cs
hex_groups groups (suc n) (c ∷ cs) = is_hex c && hex_groups groups n cs

-- `str(UUID(s)) == s`: a UUID in its canonical lower-case form.
unfoldable pub is_uuid : String → Bool
unfolding hex_groups is_hex
is_uuid s = hex_groups (4 ∷ 4 ∷ 4 ∷ 12 ∷ []) 8 (codes s)
