-- ===== src/Text.antt =====
-- What the controller uses of Go's `strings` and `fmt`: Contains, TrimSpace, ToLower and ReplaceAll,
-- and the verbs %d and %o. ToLower is applied to ASCII text only (the node types and hexadecimal).
pub mod Decimal
use Prim.Native.Char.{Char, code}
use Prim.Native.String.{char_at, len, slice}
use text.Mathlib.Text.{find?}
use nodedeploy_controller.Prelude.{
  ℕ, zero, suc, ◌-◌, ◌/◌, ◌%◌, ◌+◌, String, ◌<>◌, List, [], ◌∷◌, Bool, true, false, ◌&&◌, ◌||◌,
  none, some, leb, ◌==◌, if◌then◌else◌,
}

-- `strings.Contains`
unfoldable pub contains : String → String → Bool
contains s t = elim (find? s t) [ none ↦ false | some _ ↦ true ]

lower_char : Char → Char
lower_char c =
    if leb b'A' (code c) && leb (code c) b'Z'
    then char_at "abcdefghijklmnopqrstuvwxyz" (code c - b'A')
    else c

-- `strings.ToLower` on ASCII text
unfoldable pub to_lower : String → String
unfolding lower_char
to_lower String.[] = String.[]
to_lower (String.◌∷◌ c s) = String.◌∷◌ (lower_char c) (to_lower s)

-- `unicode.IsSpace`
is_space : Char → Bool
is_space c =
    (leb 9 (code c) && leb (code c) 13)
    || code c == 32
    || code c == 0x85
    || code c == 0xa0
    || code c == 0x1680
    || (leb 0x2000 (code c) && leb (code c) 0x200a)
    || code c == 0x2028
    || code c == 0x2029
    || code c == 0x202f
    || code c == 0x205f
    || code c == 0x3000

trim_left : String → String
unfolding is_space
trim_left String.[] = String.[]
trim_left (String.◌∷◌ c s) = let rest = trim_left s in if is_space c then rest else String.◌∷◌ c s

is_blank : String → Bool
is_blank String.[] = true
is_blank (String.◌∷◌ _ _) = false

-- The white space at the end goes: a character stays if it is none or if anything after it stays.
trim_right : String → String
unfolding is_space is_blank
trim_right String.[] = String.[]
trim_right (String.◌∷◌ c s) =
    let rest = trim_right s in if is_space c && is_blank rest then String.[] else String.◌∷◌ c rest

-- `strings.TrimSpace`
unfoldable pub trim_space : String → String
unfolding trim_left trim_right
trim_space s = trim_right (trim_left s)

-- The digits of a number in a base up to ten, before `acc`. A number has no more digits than the fuel.
digits : ℕ → ℕ → ℕ → String → String
digits base zero n acc = acc
digits base (suc fuel) n acc =
    let acc' = String.◌∷◌ (char_at "0123456789" (n % base)) acc in
    let rest = digits base fuel (n / base) acc' in if n / base == 0 then acc' else rest

-- `%d`
unfoldable pub decimal : ℕ → String
unfolding digits
decimal n = digits 10 (suc n) n ""

-- `%o`
unfoldable pub octal : ℕ → String
unfolding digits
octal n = digits 8 (suc n) n ""

-- Every occurrence of `t` goes, from the left. A text has fewer of them than the fuel.
remove_from : ℕ → String → String → String
remove_from zero s t = s
remove_from (suc fuel) s t = elim (find? s t) [
  | none ↦ s
  | some i ↦ slice s 0 i <> remove_from fuel (slice s (i + len t) (len s)) t
]

-- `strings.Replace(s, t, "", -1)`
unfoldable pub remove_all : String → String → String
unfolding remove_from
remove_all s t = remove_from (suc (len s)) s t

-- `strings.Join`
unfoldable pub join : List String → String → String
join [] sep = ""
join (s ∷ []) sep = s
join (s ∷ rest) sep = s <> sep <> join rest sep
