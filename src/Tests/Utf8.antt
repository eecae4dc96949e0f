-- ===== src/Tests/Utf8.antt =====
-- The theorems on UTF-8, applied to the euro sign.
use libxkbcommon.Base.{◌<◌, ◌≡◌, ◌↔◌, ◌⊎◌, refl, true, none, some, [], ◌∷◌, ◌++◌}
use libxkbcommon.Utf8.{is_surrogate, utf32_to_utf8, utf8_next_code_point, is_valid_utf8}
use libxkbcommon.Utf8.Valid.{is_valid_utf8-utf32_to_utf8}
use libxkbcommon.Utf8.RoundTrip.{utf8_next_code_point-utf32_to_utf8, utf32_to_utf8-none}

euro : utf32_to_utf8 8364 ≡ some (226 ∷ 130 ∷ 172 ∷ [])
unfolding utf32_to_utf8
euro = refl

utf8_next_code_point-utf32_to_utf8_example :
    utf8_next_code_point ((226 ∷ 130 ∷ 172 ∷ []) ++ (97 ∷ [])) ≡ some (8364, 3)
utf8_next_code_point-utf32_to_utf8_example =
    utf8_next_code_point-utf32_to_utf8 8364 (226 ∷ 130 ∷ 172 ∷ []) (97 ∷ []) euro

utf32_to_utf8-none_example :
    (utf32_to_utf8 0xd800 ≡ none) ↔ ((is_surrogate 0xd800 ≡ true) ⊎ (1114111 < 0xd800))
utf32_to_utf8-none_example = utf32_to_utf8-none 0xd800

is_valid_utf8-utf32_to_utf8_example :
    is_valid_utf8 ((226 ∷ 130 ∷ 172 ∷ []) ++ (97 ∷ [])) ≡ is_valid_utf8 (97 ∷ [])
is_valid_utf8-utf32_to_utf8_example =
    is_valid_utf8-utf32_to_utf8 8364 (226 ∷ 130 ∷ 172 ∷ []) (97 ∷ []) euro
