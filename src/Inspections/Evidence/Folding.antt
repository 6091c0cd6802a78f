-- ===== src/Inspections/Evidence/Folding.antt =====
-- `str.casefold`, as far as a comparison with a lower-case ASCII text reads it: every character whose
-- folding is made of ASCII letters is folded, any other stays as it is.
use Prim.Native.Char.{code}
use Prim.Native.String.{String, [], ◌∷◌}
use urban_farming_backend.Prelude.{
  ℕ, ◌+◌, Bool, true, false, ◌&&◌, ◌||◌, List, ◌++◌, ◌==◌, leb, if◌then◌else◌,
}

abbrev pub one : ℕ → List ℕ
one c = List.◌∷◌ c List.[]

abbrev pub two : ℕ → ℕ → List ℕ
two c d = List.◌∷◌ c (one d)

-- The long s, the Kelvin sign, the sharp s and the Latin ligatures.
abbrev pub fold_special : ℕ → List ℕ
fold_special c =
    if c == 383
    then one 115
    else (if c == 8490
        then one 107
        else (if c == 223 || c == 7838
            then two 115 115
            else (if c == 64256
                then two 102 102
                else (if c == 64257
                    then two 102 105
                    else (if c == 64258
                        then two 102 108
                        else (if c == 64259
                            then List.◌∷◌ 102 (two 102 105)
                            else (if c == 64260
                                then List.◌∷◌ 102 (two 102 108)
                                else (if c == 64261 || c == 64262
                                    then two 115 116
                                    else one c))))))))

abbrev pub fold_code : ℕ → List ℕ
fold_code c = if leb 65 c && leb c 90 then one (c + 32) else fold_special c

-- The code points of `s.casefold()`
pub casefold : String → List ℕ
casefold [] = List.[]
casefold (c ∷ s) = fold_code (code c) ++ casefold s

abbrev pub same_codes : List ℕ → List ℕ → Bool
same_codes List.[] List.[] = true
same_codes List.[] (List.◌∷◌ d t) = false
same_codes (List.◌∷◌ c s) List.[] = false
same_codes (List.◌∷◌ c s) (List.◌∷◌ d t) = c == d && same_codes s t
