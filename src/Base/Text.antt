-- ===== src/Base/Text.antt =====
-- Python's `str` as the list of its code points, and the methods of `str` that the program calls.
pub mod Digits
pub mod Lines
pub mod Strip
use Prim.Native.Char.{code}
use Prim.Native.Nat.{ℕ, zero, suc, ◌+◌, ◌-◌, ◌/◌, ◌%◌}
use Prim.Native.String.{String}
use mathlib.Core.Path.{◌≡◌, refl}
use mathlib.Core.Logic.{◌↔◌}
use mathlib.Core.Bool.{Bool, true, false, ◌&&◌, ◌||◌}
use mathlib.Core.List.{List, [], ◌∷◌, ◌++◌, map, reverse}
use mathlib.Core.Option.{Option, none, some}
use mathlib.Core.Option
use native.Mathlib.Omega.{arith}
use pr_insight.Base.Int.{ℤ, pos, negsuc}
use pr_insight.Base.Tests.{leb, ltb, ◌==◌, if◌then◌else◌}
use pr_insight.Base.Lists.{any, length, drop}

abbrev pub Str : Type 0
Str = List ℕ

-- A literal of the source.
abbrev pub codes : String → Str
codes String.[] = []
codes (String.◌∷◌ c s) = code c ∷ codes s

-- `a == b`
unfoldable pub str_eq : Str → Str → Bool
str_eq [] [] = true
str_eq (x ∷ xs) (y ∷ ys) = x == y && str_eq xs ys
str_eq _ _ = false

pub str_eq_iff : (a b : Str) → (str_eq a b ≡ true) ↔ (a ≡ b)
unfolding str_eq
str_eq_iff (x ∷ a) (y ∷ b) = ground (arith, str_eq_iff a b)
str_eq_iff [] [] = ground arith
str_eq_iff _ _ = ground arith

pub str_eq_refl : (a : Str) → str_eq a a ≡ true
str_eq_refl a = (str_eq_iff a a).1 refl

-- `x in xs`, for a list of texts
unfoldable pub elem : Str → List Str → Bool
elem x xs = any (str_eq x) xs

-- `s.startswith(p)`
unfoldable pub starts_with : Str → Str → Bool
starts_with [] s = true
starts_with (x ∷ p) [] = false
starts_with (x ∷ p) (y ∷ s) = x == y && starts_with p s

-- `s.endswith(p)`
unfoldable pub ends_with : Str → Str → Bool
unfolding starts_with
ends_with p s = starts_with (reverse p) (reverse s)

-- `p in s`
unfoldable pub contains : Str → Str → Bool
unfolding starts_with
contains p [] = starts_with p []
contains p (x ∷ s) = starts_with p (x ∷ s) || contains p s

-- `str.isspace`, the characters that `strip` removes
unfoldable pub is_space : ℕ → Bool
is_space c =
    leb 9 c && leb c 13
    || leb 28 c && leb c 32
    || c == 0x85
    || c == 0xa0
    || c == 0x1680
    || leb 0x2000 c && leb c 0x200a
    || leb 0x2028 c && leb c 0x2029
    || c == 0x202f
    || c == 0x205f
    || c == 0x3000

-- the characters at which `splitlines` breaks; "\r\n" is one break
unfoldable pub is_break : ℕ → Bool
is_break c =
    leb 10 c && leb c 13 || leb 28 c && leb c 30 || c == 0x85 || leb 0x2028 c && leb c 0x2029

unfoldable pub lstrip_by : (ℕ → Bool) → Str → Str
lstrip_by p [] = []
lstrip_by p (c ∷ s) = if p c then lstrip_by p s else c ∷ s

unfoldable pub rstrip_by : (ℕ → Bool) → Str → Str
unfolding lstrip_by
rstrip_by p s = reverse (lstrip_by p (reverse s))

unfoldable pub strip_by : (ℕ → Bool) → Str → Str
unfolding rstrip_by
strip_by p s = rstrip_by p (lstrip_by p s)

-- `s.lstrip()`, `s.rstrip()`, `s.strip()`
abbrev pub lstrip : Str → Str
lstrip = lstrip_by is_space

abbrev pub rstrip : Str → Str
rstrip = rstrip_by is_space

abbrev pub strip : Str → Str
strip = strip_by is_space

-- `s.lower()` and `s.upper()` of ASCII letters; other characters are kept
unfoldable pub lower_code : ℕ → ℕ
lower_code c = if leb b'A' c && leb c b'Z' then c + 32 else c

unfoldable pub upper_code : ℕ → ℕ
upper_code c = if leb b'a' c && leb c b'z' then c - 32 else c

abbrev pub lower : Str → Str
lower = map lower_code

abbrev pub upper : Str → Str
upper = map upper_code

-- one more character in front of the first piece
abbrev pub push_front : ℕ → List Str → List Str
push_front c [] = (c ∷ []) ∷ []
push_front c (l ∷ ls) = (c ∷ l) ∷ ls

-- `s.split(c)` at one character
unfoldable pub split : ℕ → Str → List Str
split c [] = [] ∷ []
split c (x ∷ s) = let rest = split c s in if x == c then [] ∷ rest else push_front x rest

-- the loop of `splitlines`; the flag says that the last character was '\r'
unfoldable pub lines_from : Bool → Str → List Str
unfolding is_break
lines_from cr [] = []
lines_from cr (c ∷ s) =
    let rest = lines_from (c == 13) s in
    if cr && c == 10 then rest else if is_break c then [] ∷ rest else push_front c rest

-- `s.splitlines()`
unfoldable pub splitlines : Str → List Str
unfolding lines_from
splitlines = lines_from false

-- `sep.join(parts)`
unfoldable pub join : Str → List Str → Str
join sep [] = []
join sep (l ∷ []) = l
join sep (l ∷ m ∷ ls) = l ++ (sep ++ join sep (m ∷ ls))

-- `s.replace(old, new)` for a non-empty `old`: the count says how many characters of a match
-- are still to be passed over
unfoldable pub replace_from : ℕ → Str → Str → Str → Str
unfolding starts_with
replace_from k old new [] = []
replace_from (suc k) old new (c ∷ s) = replace_from k old new s
replace_from zero old new (c ∷ s) =
    let hit = new ++ replace_from (length old - 1) old new s in
    let miss = c ∷ replace_from 0 old new s in if starts_with old (c ∷ s) then hit else miss

unfoldable pub replace : Str → Str → Str → Str
unfolding replace_from
replace = replace_from 0

-- `str(n)` for a natural number
digits_onto : ℕ → ℕ → Str → Str
digits_onto zero n acc = acc
digits_onto (suc fuel) n acc =
    let rest = digits_onto fuel (n / 10) ((n % 10 + 48) ∷ acc) in
    if ltb n 10 then (n + 48) ∷ acc else rest

unfoldable pub decimal : ℕ → Str
unfolding digits_onto
decimal n = digits_onto (n + 1) n []

-- `str(n)` for an integer
unfoldable pub decimal_ℤ : ℤ → Str
unfolding decimal
decimal_ℤ (pos n) = decimal n
decimal_ℤ (negsuc n) = b'-' ∷ decimal (suc n)

-- `s.split(sep)` at a text that is not empty: the count says how many characters of a match are
-- still to be passed over
unfoldable pub split_text_from : ℕ → Str → Str → List Str
unfolding starts_with
split_text_from k sep [] = [] ∷ []
split_text_from (suc k) sep (c ∷ s) = split_text_from k sep s
split_text_from zero sep (c ∷ s) =
    let hit = [] ∷ split_text_from (length sep - 1) sep s in
    let miss = push_front c (split_text_from 0 sep s) in
    if starts_with sep (c ∷ s) then hit else miss

unfoldable pub split_text : Str → Str → List Str
unfolding split_text_from
split_text = split_text_from 0

-- `s.find(p)`, where `none` is -1
unfoldable pub find : Str → Str → Option ℕ
unfolding starts_with
find p [] = if starts_with p [] then some 0 else none
find p (c ∷ s) =
    let later = Option.map suc (find p s) in if starts_with p (c ∷ s) then some 0 else later

-- `s.rfind(p)`
unfoldable pub rfind : Str → Str → Option ℕ
unfolding starts_with
rfind p [] = if starts_with p [] then some 0 else none
rfind p (c ∷ s) = elim (rfind p s) [
  | some i ↦ some (suc i)
  | none ↦ if starts_with p (c ∷ s) then some 0 else none
]

-- `s.removeprefix(p)`
unfoldable pub remove_prefix : Str → Str → Str
unfolding starts_with
remove_prefix p s = if starts_with p s then drop (length p) s else s

-- `s.removesuffix(p)`
unfoldable pub remove_suffix : Str → Str → Str
unfolding remove_prefix
remove_suffix p s = reverse (remove_prefix (reverse p) (reverse s))
