-- ===== src/Prelude/Text.antt =====
-- Rust's `str` as the list of its code points, with the `str` and `char` methods that the program
-- calls. Lengths count the bytes of the UTF-8, as `str::len` does.
pub mod Laws
pub mod Decimal
use Prim.Native.Char.{code}
use Prim.Native.String.{String}
use Prim.Native.Nat.{ℕ, ◌+◌}
use mathlib.Core.Path.{◌≡◌}
use mathlib.Core.Logic.{◌↔◌}
use mathlib.Core.Bool.{Bool, true, false, not, ◌&&◌, ◌||◌}
use mathlib.Core.List.{List, [], ◌∷◌, ◌++◌, reverse}
use mathlib.Core.Option.{Option, none, some}
use native.Mathlib.Omega.{arith}
use router.Prelude.Tests.{ltb, leb, nat_beq, if◌then◌else◌, Eq, ◌>>=◌}

abbrev pub Text : Type 0
Text = List ℕ

-- A literal.
abbrev pub codes : String → Text
codes String.[] = []
codes (String.◌∷◌ c s) = code c ∷ codes s

unfoldable pub text_eq : Text → Text → Bool
text_eq [] [] = true
text_eq (a ∷ s) (b ∷ t) = nat_beq a b && text_eq s t
text_eq _ _ = false

pub text_eq_iff : (s t : Text) → (text_eq s t ≡ true) ↔ (s ≡ t)
unfolding text_eq
text_eq_iff [] [] = ground arith
text_eq_iff [] (b ∷ t) = ground arith
text_eq_iff (a ∷ s) [] = ground arith
text_eq_iff (a ∷ s) (b ∷ t) = ground (arith, text_eq_iff s t)

instance abbrev pub text_Eq : Eq Text
text_Eq = record { beq = text_eq; beq_iff = text_eq_iff }

-- `char::len_utf8`.
abbrev pub len_utf8 : ℕ → ℕ
len_utf8 c = if ltb c 0x80 then 1 else if ltb c 0x800 then 2 else if ltb c 0x10000 then 3 else 4

-- `str::len`.
unfoldable pub len : Text → ℕ
len [] = 0
len (c ∷ s) = len_utf8 c + len s

-- `char::is_control`: the general category Cc.
unfoldable pub is_control : ℕ → Bool
is_control c = ltb c 0x20 || (leb 0x7f c && ltb c 0xa0)

-- `char::is_whitespace`: the property White_Space.
unfoldable pub is_whitespace : ℕ → Bool
is_whitespace c =
    (leb 9 c && leb c 13)
    || nat_beq c 32
    || nat_beq c 0x85
    || nat_beq c 0xa0
    || nat_beq c 0x1680
    || (leb 0x2000 c && leb c 0x200a)
    || nat_beq c 0x2028
    || nat_beq c 0x2029
    || nat_beq c 0x202f
    || nat_beq c 0x205f
    || nat_beq c 0x3000

-- `str::contains` of a character.
unfoldable pub contains : Text → ℕ → Bool
contains [] c = false
contains (a ∷ s) c = nat_beq a c || contains s c

-- `str::starts_with`.
unfoldable pub starts_with : Text → Text → Bool
starts_with s [] = true
starts_with [] (b ∷ p) = false
starts_with (a ∷ s) (b ∷ p) = nat_beq a b && starts_with s p

-- `str::contains` of a text.
unfoldable pub contains_text : Text → Text → Bool
unfolding starts_with
contains_text [] p = starts_with [] p
contains_text (a ∷ s) p = starts_with (a ∷ s) p || contains_text s p

-- `str::strip_prefix` and `str::strip_suffix`.
unfoldable pub strip_prefix : Text → Text → Option Text
strip_prefix s [] = some s
strip_prefix [] (b ∷ p) = none
strip_prefix (a ∷ s) (b ∷ p) = let rest = strip_prefix s p in if nat_beq a b then rest else none

unfoldable pub strip_suffix : Text → Text → Option Text
unfolding strip_prefix
strip_suffix s p = strip_prefix (reverse s) (reverse p) >>= λ r. some (reverse r)

-- `str::split_once` at a character: the texts before and behind its first occurrence.
unfoldable pub split_once : Text → ℕ → Option (Text × Text)
split_once [] c = none
split_once (a ∷ s) c =
    let rest = split_once s c >>= λ (l, r). some (a ∷ l, r) in
    if nat_beq a c then some ([], s) else rest

-- `str::trim_start`, `str::trim_end` and `str::trim`.
unfoldable pub trim_start : Text → Text
unfolding is_whitespace
trim_start [] = []
trim_start (c ∷ s) = let rest = trim_start s in if is_whitespace c then rest else c ∷ s

unfoldable pub trim_end : Text → Text
unfolding trim_start
trim_end s = reverse (trim_start (reverse s))

unfoldable pub trim : Text → Text
unfolding trim_end
trim s = trim_end (trim_start s)

-- The words of `str::split_whitespace`, joined by single spaces: a run of white space becomes one
-- space between words, and none at the ends. The flag says that a space is owed before a word.
unfoldable pub respace : Bool → Bool → Text → Text
unfolding is_whitespace
respace started owed [] = []
respace started owed (c ∷ s) =
    let skip = respace started started s in
    let keep = c ∷ respace true false s in
    if is_whitespace c then skip else if owed then 32 ∷ keep else keep

-- `split_whitespace().collect().join(" ")`.
unfoldable pub one_line : Text → Text
unfolding respace
one_line s = respace false false s

-- `[String]::join`.
unfoldable pub join : Text → List Text → Text
join sep [] = []
join sep (s ∷ []) = s
join sep (s ∷ t ∷ r) = s ++ sep ++ join sep (t ∷ r)

-- `str::to_ascii_lowercase`.
unfoldable pub to_ascii_lowercase : Text → Text
to_ascii_lowercase [] = []
to_ascii_lowercase (c ∷ s) = (if leb 65 c && leb c 90 then c + 32 else c) ∷ to_ascii_lowercase s
