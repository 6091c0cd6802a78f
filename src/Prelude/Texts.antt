-- ===== src/Prelude/Texts.antt =====
-- Python's `strip`, `lower` and the order of texts, over code points.
use Prim.Native.Nat.{ℕ, suc, ◌+◌}
use Prim.Native.Char.{Char, IsScalar, char, code}
use Prim.Native.String.{String, [], ◌∷◌}
use mathlib.Core.Path.{◌≡◌, refl}
use mathlib.Core.Bool.{Bool, ◌&&◌, ◌||◌}
use mathlib.Core.List.{List}
use native.Mathlib.Omega.{arith}
use urban_farming_backend.Prelude.Tests.{leb, ltb, ◌==◌, if◌then◌else◌}

-- The code points for which `str.isspace` is true.
pub is_space : ℕ → Bool
is_space c =
    leb 9 c && leb c 13
    || leb 28 c && leb c 32
    || c == 133
    || c == 160
    || c == 5760
    || leb 8192 c && leb c 8202
    || c == 8232
    || c == 8233
    || c == 8239
    || c == 8287
    || c == 12288

abbrev pub is_blank_text : String → Bool
is_blank_text [] = Bool.true
is_blank_text (c ∷ s) = is_space (code c) && is_blank_text s

-- `s.lstrip()`
pub lstrip : String → String
lstrip [] = []
lstrip (c ∷ s) = let rest = lstrip s in if is_space (code c) then rest else c ∷ s

-- `s.rstrip()`
pub rstrip : String → String
rstrip [] = []
rstrip (c ∷ s) =
    let rest = rstrip s in if is_space (code c) && is_blank_text s then [] else c ∷ rest

-- `s.strip()`
unfoldable pub strip : String → String
unfolding lstrip rstrip is_space
strip s = rstrip (lstrip s)

-- `len(s)`
abbrev pub text_length : String → ℕ
text_length [] = 0
text_length (c ∷ s) = suc (text_length s)

-- `s < t`: texts are compared by their code points.
pub text_lt : String → String → Bool
text_lt [] [] = Bool.false
text_lt [] (d ∷ t) = Bool.true
text_lt (c ∷ s) [] = Bool.false
text_lt (c ∷ s) (d ∷ t) =
    let rest = text_lt s t in ltb (code c) (code d) || code c == code d && rest

insert_text : String → List String → List String
insert_text s List.[] = List.◌∷◌ s List.[]
insert_text s (List.◌∷◌ t ts) =
    let rest = insert_text s ts in
    if text_lt s t
    then List.◌∷◌ s (List.◌∷◌ t ts)
    else (if text_lt t s then List.◌∷◌ t rest else List.◌∷◌ t ts)

-- `sorted(set(texts))`
pub sorted_set : List String → List String
sorted_set List.[] = List.[]
sorted_set (List.◌∷◌ s ss) = insert_text s (sorted_set ss)

abbrev is_upper : ℕ → Bool
is_upper n = leb 65 n && leb n 90

pub lowered-IsScalar : (n : ℕ) → is_upper n ≡ Bool.true → IsScalar (n + 32)
lowered-IsScalar n h = ground arith

lower_as : (n : ℕ) → IsScalar n → (b : Bool) → is_upper n ≡ b → Char
lower_as n p Bool.true e = char (n + 32) (lowered-IsScalar n e)
lower_as n p Bool.false e = char n p

-- The lower case of an ASCII letter; any other character stays.
lower_char : Char → Char
unfolding lower_as
lower_char (char n p) = lower_as n p (is_upper n) refl

-- `s.lower()`, and `lower(s)` of SQL, on ASCII
unfoldable pub lower : String → String
unfolding lower_char lower_as
lower [] = []
lower (c ∷ s) = lower_char c ∷ lower s

lower_as-kept :
    (n : ℕ) (p : IsScalar n) (b : Bool) (e : is_upper n ≡ b)
    → b ≡ Bool.false
    → lower_as n p b e ≡ char n p
unfolding lower_as
lower_as-kept n p Bool.true e h = cc
lower_as-kept n p Bool.false e h = refl

lower_as-done :
    (n : ℕ) (p : IsScalar n) (b : Bool) (e : is_upper n ≡ b)
    → lower_char (lower_as n p b e) ≡ lower_as n p b e
unfolding lower_char lower_as
lower_as-done n p Bool.true e = lower_as-kept (n + 32) _ _ refl (ground arith)
lower_as-done n p Bool.false e = lower_as-kept n p _ refl e

lower_char_twice : (c : Char) → lower_char (lower_char c) ≡ lower_char c
unfolding lower_char
lower_char_twice (char n p) = lower_as-done n p (is_upper n) refl

pub lower_twice : (s : String) → lower (lower s) ≡ lower s
unfolding lower
lower_twice [] = refl
lower_twice (c ∷ s) = ground (arith, lower_char_twice c, lower_twice s)

lower_lem : lower "Ab@C.org" ≡ "ab@c.org"
unfolding lower lower_char lower_as
lower_lem = refl

-- Whether a character stands in a text
abbrev pub contains_code : ℕ → String → Bool
contains_code n [] = Bool.false
contains_code n (c ∷ s) = code c == n || contains_code n s
